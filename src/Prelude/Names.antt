-- ===== src/Prelude/Names.antt =====
-- Python's dict with string keys, as the list of its items.
use mathlib.Core.Bool.{Bool, true, false}
use mathlib.Core.List.{List, [], ◌∷◌}
use mathlib.Core.Option.{Option, none, some}
use mathlib.Core.Path.{◌≡◌, refl}
use native.Mathlib.Omega.{arith}
use Prim.Native.String.{String}
use text.Mathlib.Text.{◌==◌ as str_eq}
use text.Mathlib.TextEquality.{eq_iff as str_eq_iff}
use lean_vllm.Prelude.Tests.{if◌then◌else◌}

module _ {ℓ} {V : Type ℓ} where
  unfoldable pub get : String → List (String × V) → Option V
  get k [] = none
  get k ((j, v) ∷ d) = if str_eq j k then some v else get k d

  unfoldable pub has : String → List (String × V) → Bool
  has k [] = false
  has k ((j, v) ∷ d) = if str_eq j k then true else has k d

  unfoldable pub put : String → V → List (String × V) → List (String × V)
  put k v [] = (k, v) ∷ []
  put k v ((j, w) ∷ d) = let rest = put k v d in if str_eq j k then (k, v) ∷ d else (j, w) ∷ rest

  -- `del d[k]`; every entry of the key goes.
  unfoldable pub without : String → List (String × V) → List (String × V)
  without k [] = []
  without k ((j, v) ∷ d) = let rest = without k d in if str_eq j k then rest else (j, v) ∷ rest

  pub get-put :
      (k j : String) (v : V) (d : List (String × V))
      → get j (put k v d) ≡ (if str_eq k j then some v else get j d)
  unfolding get put
  get-put k j v [] = refl
  get-put k j v ((i, w) ∷ d) =
      ground (arith, str_eq_iff k j, str_eq_iff i k, str_eq_iff i j, get-put k j v d)

  pub get-without :
      (k j : String) (d : List (String × V))
      → get j (without k d) ≡ (if str_eq k j then none else get j d)
  unfolding get without
  get-without k j [] = ground arith
  get-without k j ((i, w) ∷ d) =
      ground (arith, str_eq_iff k j, str_eq_iff i k, str_eq_iff i j, get-without k j d)

  pub has-get : (k : String) (v : V) (d : List (String × V)) → get k d ≡ some v → has k d ≡ true
  unfolding get has
  has-get k v [] h = cc
  has-get k v ((i, w) ∷ d) h = ground (arith, has-get k v d)

  pub not_has-get : (k : String) (d : List (String × V)) → has k d ≡ false → get k d ≡ none
  unfolding get has
  not_has-get k [] h = refl
  not_has-get k ((i, w) ∷ d) h = ground (arith, not_has-get k d)
