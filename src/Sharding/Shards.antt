-- ===== src/Sharding/Shards.antt =====
-- The shards of all ranks are the weight.
use lean_vllm.Prelude.{
  ℕ, zero, suc, ◌+◌, ◌*◌, ◌≤◌, ◌≡◌, refl, sym, ap, ◌∙◌, Option, some, List, [], ◌∷◌, ◌++◌, leb,
  length, true, take, drop, arith, ◌>>=◌,
}
use lean_vllm.Sharding.{shard, narrow}

-- The shards of the ranks from `rank` on, one behind the other.
unfoldable pub gathered {ℓ} : {A : Type ℓ} → ℕ → ℕ → ℕ → List A → Option (List A)
gathered zero rank size weight = some []
gathered (suc n) rank size weight = do
  own ← shard rank size weight
  rest ← gathered n (rank + 1) size weight
  some (own ++ rest)

drop-nil {ℓ} : {A : Type ℓ} (n : ℕ) → drop {A = A} n [] ≡ []
drop-nil zero = refl
drop-nil (suc n) = refl

drop-drop {ℓ} : {A : Type ℓ} (m n k : ℕ) (xs : List A) → k ≡ m + n → drop n (drop m xs) ≡ drop k xs
drop-drop zero n k xs h = let e : n ≡ k = omega (arith, h) in ap (λ i. drop i xs) e
drop-drop (suc m) n k [] h = drop-nil n ∙ sym (drop-nil k)
drop-drop (suc m) n zero (x ∷ xs) h = absurd (omega (arith, h))
drop-drop (suc m) n (suc k) (x ∷ xs) h = drop-drop m n k xs (omega (arith, h))

take-add {ℓ} :
    {A : Type ℓ} (m n k : ℕ) (xs : List A) → k ≡ m + n → take m xs ++ take n (drop m xs) ≡ take k xs
take-add zero n k xs h = let e : n ≡ k = omega (arith, h) in ap (λ i. take i xs) e
take-add (suc m) n zero xs h = absurd (omega (arith, h))
take-add (suc m) zero (suc k) [] h = refl
take-add (suc m) (suc n) (suc k) [] h = refl
take-add (suc m) n (suc k) (x ∷ xs) h = ap (◌∷◌ x) (take-add m n k xs (omega (arith, h)))

take-all {ℓ} : {A : Type ℓ} (n : ℕ) (xs : List A) → n ≡ length xs → take n xs ≡ xs
take-all zero [] h = refl
take-all zero (x ∷ xs) h = absurd (omega (arith, h))
take-all (suc n) [] h = refl
take-all (suc n) (x ∷ xs) h = ap (◌∷◌ x) (take-all n xs (omega (arith, h)))

gathered_from {ℓ} :
    {A : Type ℓ} (n rank size start end : ℕ) (weight : List A)
    → start ≡ rank * size
    → end ≡ n * size
    → start + end ≤ length weight
    → gathered n rank size weight ≡ some (take end (drop start weight))
unfolding gathered shard narrow
gathered_from zero rank size start end weight hs he fits =
    let e : end ≡ 0 = omega (arith, he) in ap (λ i. some (take i (drop start weight))) (sym e)
gathered_from (suc n) rank size start end weight hs he fits =
    let next : start + size ≡ (rank + 1) * size = grind (arith, hs) in
    let total : end ≡ size + n * size = grind (arith, he) in
    let rest : gathered n (rank + 1) size weight
        ≡ some (take (n * size) (drop (start + size) weight)) =
      gathered_from n (rank + 1) size (start + size) (n * size) weight next refl
        (omega (arith, total, fits)) in
    let first : leb (rank * size + size) (length weight) ≡ true = ground (arith, hs, total, fits) in
    let joined : take size (drop start weight) ++ take (n * size) (drop (start + size) weight)
        ≡ take end (drop start weight) =
      ap (λ xs. take size (drop start weight) ++ take (n * size) xs)
        (sym (drop-drop start size (start + size) weight refl))
      ∙ take-add size (n * size) end (drop start weight) total in
    let own : take size (drop (rank * size) weight) ≡ take size (drop start weight) =
      ap (λ i. take size (drop i weight)) (sym hs) in
    simp (first, rest)
      (ap some (ap (λ xs. xs ++ take (n * size) (drop (start + size) weight)) own ∙ joined))

-- A weight whose size the ranks divide evenly: each rank has its shard, and the shards of all ranks,
-- one behind the other, are the weight.
pub shard_lem {ℓ} :
    {A : Type ℓ} (tp_size size : ℕ) (weight : List A)
    → length weight ≡ tp_size * size
    → gathered tp_size 0 size weight ≡ some weight
shard_lem tp_size size weight h =
    gathered_from tp_size 0 size 0 (tp_size * size) weight (omega arith) refl (omega (arith, h))
    ∙ ap some (take-all (tp_size * size) weight (sym h))
