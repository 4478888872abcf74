-- ===== src/Contexts.antt =====
-- lean_vllm/utils/context.py: the attention context of a pass, its split into decode rows and the
-- rest, and the context that is current. The device's copies of the host's lists are left out, and a
-- split is computed anew where the source keeps it.
pub mod Splits
use lean_vllm.Prelude.{
  ℕ, zero, suc, ◌+◌, ◌-◌, Bool, true, false, not, Option, none, some, List, [], ◌∷◌, map, ltb, ◌==◌,
  if◌then◌else◌, length, take, drop, get_elem?, assert, ◌>>=◌, ◌>>◌,
}
use lean_vllm.ModelRunner.Arrays.{at, maximum}

pub record Context : Type 0 where
  pub is_prefill : Bool
  pub cu_seqlens_q_host : Option (List ℕ)
  pub cu_seqlens_k_host : Option (List ℕ)
  pub max_seqlen_q : ℕ
  pub max_seqlen_k : ℕ
  pub context_lens : List ℕ
  pub block_tables : Option (List (List ℕ))

-- The lengths of the rows between running sums: `b - a for a, b in zip(cu, cu[1:])`.
unfoldable pub row_lens : List ℕ → List ℕ
row_lens [] = []
row_lens (a ∷ []) = []
row_lens (a ∷ b ∷ cu) = (b - a) ∷ row_lens (b ∷ cu)

-- The rows before the first whose length is another: `next(..., num_rows)`.
unfoldable pub num_leading : ℕ → List ℕ → ℕ
num_leading query_len [] = 0
num_leading query_len (n ∷ lens) =
    let rest = num_leading query_len lens in if n == query_len then suc rest else 0

unfoldable pub decode_rows : Context → ℕ → ℕ → List ℕ → List ℕ → List (List ℕ) → Context
decode_rows c query_len n cu_q cu_k tables = record {
  is_prefill = false;
  cu_seqlens_q_host = some (take (n + 1) cu_q);
  cu_seqlens_k_host = some (take (n + 1) cu_k);
  max_seqlen_q = query_len;
  max_seqlen_k = maximum (take n (row_lens cu_k));
  context_lens = take n c.context_lens;
  block_tables = some (take n tables);
}

-- `[x - cu[n] for x in cu[n:]]`
unfoldable pub rebased : ℕ → List ℕ → List ℕ
rebased n cu = map (λ x. x - at cu n) (drop n cu)

unfoldable pub prefill_rows : Context → ℕ → List ℕ → List ℕ → List (List ℕ) → Context
prefill_rows c n cu_q cu_k tables = record {
  is_prefill = true;
  cu_seqlens_q_host = some (rebased n cu_q);
  cu_seqlens_k_host = some (rebased n cu_k);
  max_seqlen_q = maximum (row_lens (rebased n cu_q));
  max_seqlen_k = maximum (row_lens (rebased n cu_k));
  context_lens = drop n c.context_lens;
  block_tables = some (drop n tables);
}

-- The number of decode rows, their context and that of the others.
abbrev pub Split : Type 0
Split = ℕ × Option Context × Option Context

abbrev pub split_at : Context → ℕ → ℕ → ℕ → List ℕ → List ℕ → List (List ℕ) → Split
split_at c query_len num_rows n cu_q cu_k tables =
    if n == 0
    then (0, none, some c)
    else if ltb n num_rows
    then (
      n,
      some (decode_rows c query_len n cu_q cu_k tables),
      some (prefill_rows c n cu_q cu_k tables),
    )
    else (n, some (decode_rows c query_len n cu_q cu_k tables), none)

-- Of the tables, and the query and key sums of the host; sums of queries alone fail an assertion.
abbrev pub split_given :
    Context → ℕ → Option (List (List ℕ)) → Option (List ℕ) → Option (List ℕ) → Option Split
split_given c query_len none cu_q cu_k = some (0, none, some c)
split_given c query_len (some tables) none cu_k = some (0, none, some c)
split_given c query_len (some tables) (some cu_q) none = none
split_given c query_len (some tables) (some cu_q) (some cu_k) = some (
    split_at c query_len (length cu_q - 1) (num_leading query_len (row_lens cu_q)) cu_q cu_k tables)

unfoldable pub split_decodes_and_prefills : Context → ℕ → Option Split
split_decodes_and_prefills c query_len =
    split_given c query_len c.block_tables c.cu_seqlens_q_host c.cu_seqlens_k_host

-- use_context: a pass in a context, with the current one restored after it, also when it raises.
unfoldable pub use_context {ℓ} :
    {C : Type ℓ} {A : Type ℓ} → (C → C × Option A) → C → C → C × Option A
use_context pass context current = (current, (pass context).1)
