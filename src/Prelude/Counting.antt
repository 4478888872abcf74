-- ===== src/Prelude/Counting.antt =====
-- How often a number stands in a list: the multiset view of queues and block tables.
use Prim.Native.Nat.{ℕ, ◌+◌, ◌-◌, ◌<◌}
use mathlib.Core.Bool.{Bool, false, ◌||◌}
use mathlib.Core.List.{List, [], ◌∷◌, ◌++◌, reverse, reverse-cons}
use mathlib.Core.Path.{◌≡◌, refl, ap, sym}
use native.Mathlib.Omega.{arith}
use lean_vllm.Prelude.Lists.{length}
use lean_vllm.Prelude.Tests.{◌==◌, if◌then◌else◌, ltb, to_ℕ}

abbrev pub count : ℕ → List ℕ → ℕ
count a [] = 0
count a (x ∷ xs) = to_ℕ (x == a) + count a xs

-- Python's `a in xs`.
abbrev pub contains : ℕ → List ℕ → Bool
contains a [] = false
contains a (x ∷ xs) = x == a || contains a xs

-- Drops the first occurrence, as `deque.remove` and `del` on a key do.
abbrev pub erase : ℕ → List ℕ → List ℕ
erase a [] = []
erase a (x ∷ xs) = let rest = erase a xs in if x == a then xs else x ∷ rest

pub count-append :
    (id : ℕ) (front back : List ℕ) → count id (front ++ back) ≡ count id front + count id back
count-append id [] back = omega arith
count-append id (first ∷ front) back = omega (arith, count-append id front back)

pub contains-count : (a : ℕ) (xs : List ℕ) → contains a xs ≡ ltb 0 (count a xs)
contains-count a [] = refl
contains-count a (x ∷ xs) = ground (arith, contains-count a xs)

pub count-erase : (a b : ℕ) (xs : List ℕ) → count b (erase a xs) ≡ count b xs - to_ℕ (a == b)
count-erase a b [] = ground arith
count-erase a b (x ∷ xs) = ground (arith, count-erase a b xs)

pub length-erase : (a : ℕ) (xs : List ℕ) → 0 < count a xs → length (erase a xs) + 1 ≡ length xs
length-erase a [] h = absurd (omega arith)
length-erase a (x ∷ xs) h = ground (arith, length-erase a xs)

pub count-reverse : (a : ℕ) (xs : List ℕ) → count a (reverse xs) ≡ count a xs
count-reverse a [] = refl
count-reverse a (x ∷ xs) = omega (
  arith,
  ap (count a) (reverse-cons x xs),
  count-append a (reverse xs) (x ∷ []),
  count-reverse a xs,
)

count-zero : (xs : List ℕ) → ((a : ℕ) → 0 ≡ count a xs) → length xs ≡ 0
count-zero [] h = refl
count-zero (x ∷ xs) h = absurd (ground (arith, h x))

-- Lists with the same members, as often, are equally long.
pub same_count-length :
    (xs ys : List ℕ) → ((a : ℕ) → count a xs ≡ count a ys) → length xs ≡ length ys
same_count-length [] ys h = sym (count-zero ys h)
same_count-length (x ∷ xs) ys h =
    let there : 0 < count x ys = ground (arith, h x) in
    let rest : length xs ≡ length (erase x ys) =
      same_count-length xs (erase x ys) (λ a. ground (arith, h a, count-erase x a ys)) in
    omega (arith, rest, length-erase x ys there)
