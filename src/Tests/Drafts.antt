-- ===== src/Tests/Drafts.antt =====
-- Two rows of a step with one draft each.
use lean_vllm.Prelude.{ℕ, ◌≡◌, refl, Option, some, none, List, [], ◌∷◌, arith}
use lean_vllm.SpecDecode.{split_sampled}
use lean_vllm.SpecDecode.Rows.{packed, packed_rows, split_sampled-packed}

-- The draft of the first row was rejected.
abbrev rows : List (List ℕ × List (Option ℕ))
rows = (3 ∷ [], some 4 ∷ []) ∷ (5 ∷ 6 ∷ [], some 7 ∷ []) ∷ []

split_sampled_example :
    split_sampled (packed_rows 2 rows) 1
    ≡ ((3 ∷ []) ∷ (5 ∷ 6 ∷ []) ∷ [], (some 4 ∷ []) ∷ (some 7 ∷ []) ∷ [])
split_sampled_example = split_sampled-packed 1 rows (omega arith, (omega arith, tt))

first_row :
    packed_rows 2 rows ≡ (some 3 ∷ none ∷ some 4 ∷ []) ∷ (some 5 ∷ some 6 ∷ some 7 ∷ []) ∷ []
unfolding packed
first_row = refl
