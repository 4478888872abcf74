-- ===== src/BlockManager/Valid.antt =====
-- What the block tables of the live requests and the state of the BlockManager have to do with one
-- another, and that the manager starts in order.
use mathlib.Core.Path.{subst, fun_ext}
use lean_vllm.Prelude.{
  ℕ, zero, suc, ◌+◌, ◌<◌, ◌≡◌, refl, Bool, not, ◌&&◌, some, List, arith, ltb, to_ℕ, length,
  get_elem?,
}
use lean_vllm.Prelude.Counting.{count, contains}
use lean_vllm.Prelude.Dict
use lean_vllm.Sequence.{Settings}
use lean_vllm.BlockManager.{Block, BlockManager, create, new_blocks, new_ids, new_block}

-- `held i` is how often the block tables of the live requests name block `i`.
pub record IsValid (m : BlockManager) (held : ℕ → ℕ) : Type 0 where
  -- each block knows its id, and counts the tables that name it
  pub at :
      (i : ℕ) (b : Block)
      → get_elem? m.blocks i ≡ some b
      → (b.block_id ≡ i) × (b.ref_count ≡ held i)
  -- no table names a block that does not exist
  pub in_range : (i : ℕ) → 0 < held i → i < length m.blocks
  -- the used ids are those that some table names
  pub used : (i : ℕ) → contains i m.used ≡ ltb 0 (held i)
  -- the queue holds every other block, once
  pub free : (i : ℕ) → count i m.free ≡ to_ℕ (ltb i (length m.blocks) && not (ltb 0 (held i)))
  -- a cache entry names a block that carries its hash
  pub cached :
      (hash i : ℕ)
      → Dict.get hash m.hash_to_block_id ≡ some i
      → (b : Block) × (get_elem? m.blocks i ≡ some b) × (b.hash ≡ some hash)

count-new_ids : (n i j : ℕ) → count j (new_ids n i) ≡ to_ℕ (not (ltb j i) && ltb j (i + n))
unfolding new_ids
count-new_ids zero i j = ground arith
count-new_ids (suc n) i j = ground (arith, count-new_ids n (i + 1) j)

length-new_blocks : (n i : ℕ) → length (new_blocks n i) ≡ n
unfolding new_blocks
length-new_blocks zero i = refl
length-new_blocks (suc n) i = omega (arith, length-new_blocks n (i + 1))

new_blocks-at :
    (n i j : ℕ) (b : Block)
    → get_elem? (new_blocks n i) j ≡ some b
    → (b.block_id ≡ i + j) × (b.ref_count ≡ 0)
unfolding new_blocks new_block
new_blocks-at zero i j b h = cc
new_blocks-at (suc n) i zero b h = ground arith
new_blocks-at (suc n) i (suc j) b h = ground (arith, new_blocks-at n (i + 1) j b h)

-- A new manager is valid with no block held.
pub create-IsValid :
    (num_blocks : ℕ) (settings : Settings) (recompute_last_hit : Bool)
    → IsValid (create num_blocks settings recompute_last_hit) (λ i. 0)
unfolding create Dict.get
create-IsValid num_blocks settings recompute_last_hit = record {
  at = λ i b h. ground (arith, new_blocks-at num_blocks 0 i b h);
  in_range = λ i h. absurd (omega arith);
  used = λ i. ground arith;
  free = λ i. ground (arith, count-new_ids num_blocks 0 i, length-new_blocks num_blocks 0);
  cached = λ hash i h. cc;
}

-- The tables with one more use of each block of a list.
abbrev pub hold : List ℕ → (ℕ → ℕ) → ℕ → ℕ
hold ids held i = count i ids + held i

pub IsValid-ext :
    {m : BlockManager} (f g : ℕ → ℕ) → ((i : ℕ) → f i ≡ g i) → IsValid m f → IsValid m g
IsValid-ext {m} f g e v = subst (IsValid m) (fun_ext e) v
