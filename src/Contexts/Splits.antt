-- ===== src/Contexts/Splits.antt =====
-- The rows of a context's split (lean_vllm/utils/context.py).
use lean_vllm.Prelude.{
  ℕ, zero, suc, ◌+◌, ◌-◌, ◌≤◌, ◌<◌, ◌≡◌, refl, ap, ◌∙◌, inl, inr, some, List, [], ◌∷◌, ◌++◌, map,
  ◌==◌, length, take, get_elem?, arith, Bool-cases,
}
use lean_vllm.Contexts.{row_lens, num_leading, rebased}

-- Each sum is at least the one before it.
unfoldable pub IsRising : List ℕ → Type 0
IsRising [] = Unit
IsRising (a ∷ []) = Unit
IsRising (a ∷ b ∷ cu) = (a ≤ b) × IsRising (b ∷ cu)

row_lens-rebased :
    (base : ℕ) (cu : List ℕ)
    → IsRising (base ∷ cu)
    → row_lens (map (λ x. x - base) cu) ≡ row_lens cu
unfolding row_lens IsRising
row_lens-rebased base [] h = refl
row_lens-rebased base (a ∷ []) h = refl
row_lens-rebased base (a ∷ b ∷ cu) (h, (g, r)) =
    let head : b - base - (a - base) ≡ b - a = omega (arith, h, g) in
    simp (head, row_lens-rebased base (b ∷ cu) (omega (arith, h, g), r))

split_rows_at :
    (n : ℕ) (cu : List ℕ)
    → IsRising cu
    → n < length cu
    → row_lens (take (suc n) cu) ++ row_lens (rebased n cu) ≡ row_lens cu
unfolding row_lens rebased IsRising
split_rows_at n [] h below = absurd (omega (arith, below))
split_rows_at zero (a ∷ cu) h below = row_lens-rebased a (a ∷ cu) (omega arith, h)
split_rows_at (suc n) (a ∷ []) h below = absurd (omega (arith, below))
split_rows_at (suc n) (a ∷ b ∷ cu) h below =
    ap (◌∷◌ (b - a)) (split_rows_at n (b ∷ cu) h.1 (omega (arith, below)))

-- The rows of both parts of a split, one part behind the other, have the lengths of the batch's.
pub split_rows :
    (n : ℕ) (cu : List ℕ)
    → IsRising cu
    → n < length cu
    → row_lens (take (n + 1) cu) ++ row_lens (rebased n cu) ≡ row_lens cu
split_rows n cu h below =
    let e : n + 1 ≡ suc n = omega arith in
    ap (λ k. row_lens (take k cu) ++ row_lens (rebased n cu)) e ∙ split_rows_at n cu h below

-- The rows that count as decode rows have the query length.
pub num_leading_lem :
    (q i x : ℕ) (lens : List ℕ) → i < num_leading q lens → get_elem? lens i ≡ some x → x ≡ q
unfolding num_leading
num_leading_lem q i x [] h g = absurd (omega (arith, h))
num_leading_lem q zero x (n ∷ lens) h g = ground (arith, h, g)
num_leading_lem q (suc i) x (n ∷ lens) h g = elim (Bool-cases (n == q)) [
  | inl same ↦ num_leading_lem q i x lens (ground (arith, h, same)) g
  | inr other ↦ absurd (ground (arith, h, other))
]
