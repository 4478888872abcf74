-- ===== src/Prelude/Dict.antt =====
-- Python's dict and set with integer members, as lists in insertion order. The program iterates
-- over none of them where the order matters.
use lean_vllm.Prelude.Tests.{◌==◌, if◌then◌else◌}
use lean_vllm.Prelude.Counting.{contains}
use Prim.Native.Nat.{ℕ}
use mathlib.Core.Bool.{true, false}
use mathlib.Core.List.{List, [], ◌∷◌}
use mathlib.Core.Option.{Option, none, some}
use mathlib.Core.Path.{◌≡◌, refl}
use native.Mathlib.Omega.{arith}

module _ {ℓ} {V : Type ℓ} where
  unfoldable pub get : ℕ → List (ℕ × V) → Option V
  get k [] = none
  get k ((j, v) ∷ d) = if j == k then some v else get k d

  unfoldable pub put : ℕ → V → List (ℕ × V) → List (ℕ × V)
  put k v [] = (k, v) ∷ []
  put k v ((j, w) ∷ d) = let rest = put k v d in if j == k then (k, v) ∷ d else (j, w) ∷ rest

  -- `del d[k]`; every entry of the key goes.
  unfoldable pub without : ℕ → List (ℕ × V) → List (ℕ × V)
  without k [] = []
  without k ((j, v) ∷ d) = let rest = without k d in if j == k then rest else (j, v) ∷ rest

  pub get-put :
      (k j : ℕ) (v : V) (d : List (ℕ × V))
      → get j (put k v d) ≡ (if k == j then some v else get j d)
  unfolding get put
  get-put k j v [] = refl
  get-put k j v ((i, w) ∷ d) = ground (arith, get-put k j v d)

  pub get-without :
      (k j : ℕ) (d : List (ℕ × V)) → get j (without k d) ≡ (if k == j then none else get j d)
  unfolding get without
  get-without k j [] = ground arith
  get-without k j ((i, w) ∷ d) = ground (arith, get-without k j d)

-- `set.add` and `set.remove`; a missing member of the latter is the caller's to test.
unfoldable pub add : ℕ → List ℕ → List ℕ
add a xs = if contains a xs then xs else a ∷ xs

-- `del` of a member; a set holds it once, so that all its occurrences go.
unfoldable pub discard : ℕ → List ℕ → List ℕ
discard a [] = []
discard a (x ∷ xs) = let rest = discard a xs in if x == a then rest else x ∷ rest

pub contains-add :
    (a b : ℕ) (xs : List ℕ) → contains b (add a xs) ≡ (if a == b then true else contains b xs)
unfolding add
contains-add a b xs = ground arith

pub contains-discard :
    (a b : ℕ) (xs : List ℕ) → contains b (discard a xs) ≡ (if a == b then false else contains b xs)
unfolding discard
contains-discard a b [] = ground arith
contains-discard a b (x ∷ xs) = ground (arith, contains-discard a b xs)
