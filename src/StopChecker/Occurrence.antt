-- ===== src/StopChecker/Occurrence.antt =====
-- What `find` and the least find of several strings find: the first position at which one occurs.
use mathlib.Core.Path.{ap₂}
use lean_vllm.Prelude.{
  ℕ, zero, suc, ◌+◌, ◌≤◌, ◌<◌, ◌≡◌, refl, ap, ◌∙◌, Bool, true, false, Option, none, some, List, [],
  ◌∷◌, ◌++◌, ◌&&◌, ◌||◌, arith, ◌==◌, length, drop, length-drop, Bool-cases, inl, inr,
}
use lean_vllm.Sequence.Slices.{drop-append_left}
use lean_vllm.StopChecker.{starts_with, later, find, nearer, find_first, max_length}

-- One of the strings occurs at position `i` of the text.
unfoldable pub occurs_at : List (List ℕ) → List ℕ → ℕ → Bool
occurs_at [] text i = false
occurs_at (s ∷ stop) text i = starts_with s (drop i text) || occurs_at stop text i

-- The result is the least number that passes the test.
abbrev pub Least : (ℕ → Bool) → Option ℕ → Type 0
Least p none = (i : ℕ) → p i ≡ false
Least p (some k) = (p k ≡ true) × ((i : ℕ) → i < k → p i ≡ false)

pub drop-nil : (i : ℕ) → drop {A = ℕ} i [] ≡ []
drop-nil zero = refl
drop-nil (suc i) = refl

Least-later :
    (p : ℕ → Bool) (r : Option ℕ) → p 0 ≡ false → Least (λ i. p (suc i)) r → Least p (later r)
Least-later p none h l = elim [ zero ↦ h | suc i ↦ l i ]
Least-later p (some k) h l = (l.0, elim [ zero ↦ λ _. h | suc i ↦ λ lt. l.1 i (omega arith) ])

find-Least : (s text : List ℕ) → Least (λ i. starts_with s (drop i text)) (find s text)
unfolding find
find-Least s [] = elim (Bool-cases (starts_with s [])) [
  | inl there ↦ rw there (there, λ i h. absurd (omega arith))
  | inr absent ↦ rw absent (λ i. ap (starts_with s) (drop-nil i) ∙ absent)
]
find-Least s (d ∷ text) = elim (Bool-cases (starts_with s (d ∷ text))) [
  | inl there ↦ rw there (there, λ i h. absurd (omega arith))
  | inr absent ↦ rw absent (Least-later _ (find s text) absent (find-Least s text))
]

Least-nearer :
    (p q : ℕ → Bool) (a b : Option ℕ) → Least p a → Least q b → Least (λ i. p i || q i) (nearer a b)
Least-nearer p q none none l m = λ i. ground (arith, l i, m i)
Least-nearer p q none (some k) l m = (ground (arith, l k), λ i h. ground (arith, l i, m.1 i))
Least-nearer p q (some j) none l m = (ground (arith, m j), λ i h. ground (arith, m i, l.1 i))
Least-nearer p q (some j) (some k) l m =
    (ground (arith, l.1 k, m.1 j), λ i h. ground (arith, l.1 i, m.1 i))

-- The first position at which a stop string occurs, or none if none occurs anywhere.
pub find_first-Least :
    (stop : List (List ℕ)) (text : List ℕ) → Least (occurs_at stop text) (find_first stop text)
unfolding find_first occurs_at
find_first-Least [] text = λ i. refl
find_first-Least (s ∷ stop) text =
    Least-nearer _ _ (find s text) (find_first stop text) (find-Least s text)
      (find_first-Least stop text)

starts_with-append :
    (s xs ys : List ℕ) → length s ≤ length xs → starts_with s (xs ++ ys) ≡ starts_with s xs
unfolding starts_with
starts_with-append [] xs ys h = refl
starts_with-append (c ∷ s) [] ys h = absurd (omega arith)
starts_with-append (c ∷ s) (x ∷ xs) ys h =
    ap (◌&&◌ (c == x)) (starts_with-append s xs ys (omega arith))

-- An occurrence that ends within the first part is one of the first part.
pub occurs_at-append_left :
    (stop : List (List ℕ)) (xs ys : List ℕ) (i : ℕ)
    → i + max_length stop ≤ length xs
    → occurs_at stop (xs ++ ys) i ≡ occurs_at stop xs i
unfolding occurs_at max_length
occurs_at-append_left [] xs ys i h = refl
occurs_at-append_left (s ∷ stop) xs ys i h =
    ap₂ ◌||◌
      (ap (starts_with s) (drop-append_left i xs ys (omega arith))
        ∙ starts_with-append s (drop i xs) ys (omega (arith, length-drop i xs)))
      (occurs_at-append_left stop xs ys i (omega arith))

drop-append_right : (xs ys : List ℕ) (i j : ℕ) → i ≡ length xs + j → drop i (xs ++ ys) ≡ drop j ys
drop-append_right [] ys i j h = let e : i ≡ j = omega arith in ap (λ k. drop k ys) e
drop-append_right (x ∷ xs) ys zero j h = absurd (omega arith)
drop-append_right (x ∷ xs) ys (suc i) j h = drop-append_right xs ys i j (omega arith)

-- Positions in the second part count from its start.
pub occurs_at-append_right :
    (stop : List (List ℕ)) (xs ys : List ℕ) (i j : ℕ)
    → i ≡ length xs + j
    → occurs_at stop (xs ++ ys) i ≡ occurs_at stop ys j
unfolding occurs_at
occurs_at-append_right [] xs ys i j h = refl
occurs_at-append_right (s ∷ stop) xs ys i j h =
    ap₂ ◌||◌ (ap (starts_with s) (drop-append_right xs ys i j h))
      (occurs_at-append_right stop xs ys i j h)
