-- ===== src/SpecDecode.antt =====
-- split_sampled of lean_vllm/spec_decode/config.py. A -1 in a row is `none`.
pub mod Rows
use lean_vllm.Prelude.{
  ℕ, zero, suc, ◌+◌, ◌-◌, ◌≤◌, ◌≡◌, refl, sym, ap, ◌∙◌, Option, none, some, List, [], ◌∷◌, ◌++◌,
  arith, length, take, drop, length-append,
}

-- The tokens of a row that are not -1.
unfoldable pub present : List (Option ℕ) → List ℕ
present [] = []
present (none ∷ row) = present row
present (some t ∷ row) = t ∷ present row

abbrev pub new_rows : ℕ → List (List (Option ℕ)) → List (List ℕ)
new_rows width [] = []
new_rows width (row ∷ rows) = present (take width row) ∷ new_rows width rows

abbrev pub draft_rows : ℕ → List (List (Option ℕ)) → List (List (Option ℕ))
draft_rows width [] = []
draft_rows width (row ∷ rows) = drop width row ∷ draft_rows width rows

unfoldable pub split_sampled : List (List (Option ℕ)) → ℕ → List (List ℕ) × List (List (Option ℕ))
split_sampled rows num_speculative_tokens =
    (new_rows (num_speculative_tokens + 1) rows, draft_rows (num_speculative_tokens + 1) rows)
