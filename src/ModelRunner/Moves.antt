-- ===== src/ModelRunner/Moves.antt =====
-- The starts of rows that are moved back for rejected drafts (lean_vllm/engine/model_runner.py).
use mathlib.Core.Option.{some-injective}
use lean_vllm.Prelude.{
  subst, ℕ, zero, suc, ◌+◌, ◌-◌, ◌≤◌, ◌<◌, ◌≡◌, refl, sym, ap, ◌∙◌, Bool, true, false, Option, none,
  some, List, [], ◌∷◌, length, get_elem?, set, replicate, arith, ◌==◌, length-set, length-replicate,
  get_elem?-set, >>=-eq-some, ◌>>=◌, if◌then◌else◌,
}
use lean_vllm.Sequence.{Sequence}
use lean_vllm.ModelRunner.Arrays.{or_zero, at, minus}
use lean_vllm.ModelRunner.Batch.{LastStep, subtract_at, move_starts, moved_from, prev_row}
use lean_vllm.ModelRunner.Layout.{moved_back}

-- The rows to move, from a first one on, each once and in order.
unfoldable pub Increasing : ℕ → List (ℕ × ℕ) → Type 0
Increasing first [] = Unit
Increasing first ((i, src) ∷ moved) = (first ≤ i) × Increasing (i + 1) moved

pub grown-Increasing :
    (i j : ℕ) (rest moved : List (ℕ × ℕ)) (idle : Bool) (row : Option ℕ)
    → j ≤ i
    → Increasing j rest
    → Increasing (i + 1) rest
    → (if idle then some rest else row >>= λ r. some ((i, r) ∷ rest)) ≡ some moved
    → Increasing j moved
unfolding Increasing
grown-Increasing i j rest moved true row below inc above h =
    subst (λ xs. Increasing j xs) (some-injective _ _ h) inc
grown-Increasing i j rest moved false none below inc above h = absurd cc
grown-Increasing i j rest moved false (some r) below inc above h =
    subst (λ xs. Increasing j xs) (some-injective _ _ h) (below, above)

pub moved_from-Increasing :
    (last : LastStep) (i j : ℕ) (batch : List Sequence) (moved : List (ℕ × ℕ))
    → j ≤ i
    → moved_from last i batch ≡ some moved
    → Increasing j moved
unfolding moved_from Increasing
moved_from-Increasing last i j [] [] below h = tt
moved_from-Increasing last i j [] (m ∷ moved) below h = absurd cc
moved_from-Increasing last i j (s ∷ batch) moved below h =
    let (rest, e, chosen) = >>=-eq-some (moved_from last (i + 1) batch) _ h in
    grown-Increasing i j rest moved (s.num_pending_tokens == 0) (prev_row last s) below
      (moved_from-Increasing last (i + 1) j batch rest (omega (arith, below)) e)
      (moved_from-Increasing last (i + 1) (i + 1) batch rest (omega arith) e) chosen

pub subtract-set :
    (i r : ℕ) (xs back : List ℕ)
    → length back ≡ length xs
    → at back i ≡ 0
    → minus (subtract_at i r xs) back ≡ minus xs (set back i r)
unfolding subtract_at minus
subtract-set i r [] back h z = refl
subtract-set zero r (x ∷ xs) [] h z = refl
subtract-set zero r (x ∷ xs) (b ∷ back) h z = ap (λ y. y ∷ minus xs back) (omega (arith, z))
subtract-set (suc i) r (x ∷ xs) [] h z = refl
subtract-set (suc i) r (x ∷ xs) (b ∷ back) h z =
    ap (◌∷◌ (x - b)) (subtract-set i r xs back (omega (arith, h)) z)

pub length-subtract_at : (i r : ℕ) (xs : List ℕ) → length (subtract_at i r xs) ≡ length xs
unfolding subtract_at
length-subtract_at i r [] = refl
length-subtract_at zero r (x ∷ xs) = refl
length-subtract_at (suc i) r (x ∷ xs) = ap suc (length-subtract_at i r xs)

pub length-moved_back :
    (rejected : List ℕ) (moved : List (ℕ × ℕ)) (back : List ℕ)
    → length (moved_back rejected moved back) ≡ length back
unfolding moved_back
length-moved_back rejected [] back = refl
length-moved_back rejected ((i, src) ∷ moved) back =
    length-set (moved_back rejected moved back) i (at rejected src)
    ∙ length-moved_back rejected moved back

pub at-zeros : (n i : ℕ) → at (replicate n 0) i ≡ 0
at-zeros zero i = refl
at-zeros (suc n) zero = refl
at-zeros (suc n) (suc i) = at-zeros n i

-- Below the first row that moves, nothing does.
pub at-moved_back :
    (rejected : List ℕ) (moved : List (ℕ × ℕ)) (n first i : ℕ)
    → Increasing first moved
    → i < first
    → at (moved_back rejected moved (replicate n 0)) i ≡ 0
unfolding moved_back Increasing
at-moved_back rejected [] n first i inc below = at-zeros n i
at-moved_back rejected ((j, src) ∷ moved) n first i inc below =
    let rest = moved_back rejected moved (replicate n 0) in
    let e : get_elem? (set rest j (at rejected src)) i ≡ get_elem? rest i =
      get_elem?-set rest j i (at rejected src) ∙ ground (arith, below, inc.0) in
    ap or_zero e ∙ at-moved_back rejected moved n (j + 1) i inc.1 (omega (arith, inc.0, below))

pub minus-zeros : (xs : List ℕ) → minus xs (replicate (length xs) 0) ≡ xs
unfolding minus
minus-zeros [] = refl
minus-zeros (x ∷ xs) = let head : x - 0 ≡ x = omega arith in simp (head, minus-zeros xs)

pub move_starts-minus :
    (rejected : List ℕ) (moved : List (ℕ × ℕ)) (first : ℕ) (starts : List ℕ)
    → Increasing first moved
    → move_starts rejected moved starts
      ≡ minus starts (moved_back rejected moved (replicate (length starts) 0))
unfolding move_starts moved_back Increasing
move_starts-minus rejected [] first starts inc = sym (minus-zeros starts)
move_starts-minus rejected ((i, src) ∷ moved) first starts inc =
    let r = at rejected src in
    let xs = subtract_at i r starts in
    let same : length xs ≡ length starts = length-subtract_at i r starts in
    let back = moved_back rejected moved (replicate (length starts) 0) in
    move_starts-minus rejected moved (i + 1) xs inc.1
    ∙ ap (λ n. minus xs (moved_back rejected moved (replicate n 0))) same
    ∙ subtract-set i r starts back
        (length-moved_back rejected moved (replicate (length starts) 0)
          ∙ length-replicate (length starts) 0)
        (at-moved_back rejected moved (length starts) (i + 1) i inc.1 (omega arith))
