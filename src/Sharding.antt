-- ===== src/Sharding.antt =====
-- How weights are cut over tensor-parallel ranks: lean_vllm/layers/linear.py and
-- lean_vllm/layers/embed_head.py. A weight is the list of its slices along the dimension that is cut.
-- narrow and chunk are torch's, the latter for slices that the ranks divide evenly; an all_reduce is
-- the sum over the ranks, an all_gather the list of theirs.
pub mod Shards
use lean_vllm.Prelude.{
  ℕ, zero, suc, ◌+◌, ◌-◌, ◌*◌, ◌/◌, ◌%◌, Bool, true, false, not, ◌&&◌, Option, none, some, List, [],
  ◌∷◌, ◌++◌, ltb, leb, ◌==◌, if◌then◌else◌, length, take, drop, get_elem?, assert, ◌>>=◌, ◌>>◌,
}
use lean_vllm.ModelRunner.Arrays.{sum}

unfoldable pub divide : ℕ → ℕ → Option ℕ
divide numerator denominator = do
  assert (numerator % denominator == 0)
  some (numerator / denominator)

-- `weight.narrow(dim, start, size)`; a range that does not fit raises.
unfoldable pub narrow {ℓ} : {A : Type ℓ} → List A → ℕ → ℕ → Option (List A)
narrow weight start size = do
  assert (leb (start + size) (length weight))
  some (take size (drop start weight))

-- The shard of ColumnParallelLinear, of RowParallelLinear's matrix and of VocabParallelEmbedding.
unfoldable pub shard {ℓ} : {A : Type ℓ} → ℕ → ℕ → List A → Option (List A)
shard rank shard_size weight = narrow weight (rank * shard_size) shard_size

-- `param.narrow(...).copy_(weight)`
unfoldable pub write_at {ℓ} : {A : Type ℓ} → List A → ℕ → List A → List A
write_at param start weight = take start param ++ weight ++ drop (start + length weight) param

-- MergedReplicatedLinear: the weight of one of several outputs, side by side.
unfoldable pub load_merged {ℓ} : {A : Type ℓ} → List ℕ → List A → List A → ℕ → Option (List A)
load_merged output_sizes param weight shard_id = do
  size ← get_elem? output_sizes shard_id
  assert (length weight == size)
  some (write_at param (sum (take shard_id output_sizes)) weight)

-- MergedColumnParallelLinear: a rank's chunk of it.
unfoldable pub load_merged_column {ℓ} :
    {A : Type ℓ} → ℕ → ℕ → List ℕ → List A → List A → ℕ → Option (List A)
load_merged_column rank tp_size output_sizes param weight shard_id = do
  size ← get_elem? output_sizes shard_id
  own ← shard rank (size / tp_size) weight
  some (write_at param (sum (take shard_id output_sizes) / tp_size) own)

pub data QkvShard : Type 0 where
  q k v : QkvShard

-- The offset and the size of a part of QKVParallelLinear, of a rank's heads.
unfoldable pub qkv_range : ℕ → ℕ → ℕ → QkvShard → ℕ × ℕ
qkv_range num_heads num_kv_heads head_size q = (0, num_heads * head_size)
qkv_range num_heads num_kv_heads head_size k = (num_heads * head_size, num_kv_heads * head_size)
qkv_range num_heads num_kv_heads head_size v =
    (num_heads * head_size + num_kv_heads * head_size, num_kv_heads * head_size)

unfoldable pub load_qkv {ℓ} :
    {A : Type ℓ} → ℕ → ℕ → ℕ → ℕ → List A → List A → QkvShard → Option (List A)
load_qkv rank num_heads num_kv_heads head_size param weight part = do
  let place = qkv_range num_heads num_kv_heads head_size part
  own ← shard rank place.1 weight
  some (write_at param place.0 own)

-- VocabParallelEmbedding of one rank: `none` is its mask, and its zero row.
unfoldable pub embed_local {ℓ} : {A : Type ℓ} → ℕ → ℕ → List A → ℕ → Option A
embed_local rank part table x =
    let start = part * rank in
    if leb start x && ltb x (start + part) then get_elem? table (x - start) else none

-- all_reduce adds up what the ranks from a first one on have; a row beside masked ones is itself.
unfoldable pub first_row {ℓ} : {A : Type ℓ} → List (Option A) → Option A
first_row [] = none
first_row (none ∷ rows) = first_row rows
first_row (some row ∷ rows) = some row
