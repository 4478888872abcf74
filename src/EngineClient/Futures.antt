-- ===== src/EngineClient/Futures.antt =====
-- The futures of AsyncMPClient (lean_vllm/engine/core_client.py): settling one of them, and all that
-- a dictionary holds.
use lean_vllm.Prelude.{
  ℕ, ◌+◌, ◌≤◌, String, ◌≡◌, refl, ◌⊎◌, inl, inr, true, false, some, List, [], ◌∷◌, ◌++◌, ◌==◌,
  if◌then◌else◌, to_ℕ, arith, Bool-cases,
}
use lean_vllm.Prelude.Counting.{contains}
use lean_vllm.Prelude.Dict
use lean_vllm.Prelude.Names
use lean_vllm.EngineClient.{Settling, is_done, settle, fail_named, fail_numbered}

-- How often a future was settled.
unfoldable pub times : ℕ → List (ℕ × Settling) → ℕ
times f [] = 0
times f ((g, s) ∷ settled) = to_ℕ (g == f) + times f settled

times-append :
    (f : ℕ) (xs : List (ℕ × Settling)) (g : ℕ) (s : Settling)
    → times f (xs ++ (g, s) ∷ []) ≡ times f xs + to_ℕ (g == f)
unfolding times
times-append f [] g s = ground arith
times-append f ((h, t) ∷ xs) g s = ground (arith, times-append f xs g s)

is_done-append :
    (f : ℕ) (xs : List (ℕ × Settling)) (g : ℕ) (s : Settling)
    → is_done f (xs ++ (g, s) ∷ []) ≡ (if g == f then true else is_done f xs)
unfolding is_done
is_done-append f [] g s = ground arith
is_done-append f ((h, t) ∷ xs) g s = ground (arith, is_done-append f xs g s)

pub times-is_done : (f : ℕ) (xs : List (ℕ × Settling)) → is_done f xs ≡ false → times f xs ≡ 0
unfolding is_done times
times-is_done f [] h = refl
times-is_done f ((g, s) ∷ xs) h = ground (arith, times-is_done f xs)

pub is_done-times : (f : ℕ) (xs : List (ℕ × Settling)) → is_done f xs ≡ true → 1 ≤ times f xs
unfolding is_done times
is_done-times f [] h = ground arith
is_done-times f ((g, s) ∷ xs) h = ground (arith, is_done-times f xs)

pub is_done-settle :
    (f g : ℕ) (s : Settling) (xs : List (ℕ × Settling))
    → is_done f (settle g s xs) ≡ (if g == f then true else is_done f xs)
unfolding settle
is_done-settle f g s xs = elim (Bool-cases (is_done g xs)) [
  | inl h ↦ ground (arith, h)
  | inr h ↦ ground (arith, h, is_done-append f xs g s)
]

pub times-settle :
    (f g : ℕ) (s : Settling) (xs : List (ℕ × Settling))
    → ((h : ℕ) → times h xs ≤ 1)
    → times f (settle g s xs) ≤ 1
unfolding settle
times-settle f g s xs once = elim (Bool-cases (is_done g xs)) [
  | inl h ↦ ground (arith, h, once f)
  | inr h ↦ ground (arith, h, once f, times-append f xs g s, times-is_done g xs h)
]

-- The futures of a dictionary.
unfoldable pub values {ℓ} : {K : Type ℓ} → List (K × ℕ) → List ℕ
values [] = []
values ((k, f) ∷ d) = f ∷ values d

unfoldable pub settle_all : List ℕ → Settling → List (ℕ × Settling) → List (ℕ × Settling)
settle_all [] s xs = xs
settle_all (f ∷ fs) s xs = settle_all fs s (settle f s xs)

pub fail_named_lem :
    (d : List (String × ℕ)) (xs : List (ℕ × Settling))
    → fail_named d xs ≡ settle_all (values d) Settling.dead xs
unfolding fail_named settle_all values
fail_named_lem [] xs = refl
fail_named_lem ((k, f) ∷ d) xs = fail_named_lem d (settle f Settling.dead xs)

pub fail_numbered_lem :
    (d : List (ℕ × ℕ)) (xs : List (ℕ × Settling))
    → fail_numbered d xs ≡ settle_all (values d) Settling.dead xs
unfolding fail_numbered settle_all values
fail_numbered_lem [] xs = refl
fail_numbered_lem ((k, f) ∷ d) xs = fail_numbered_lem d (settle f Settling.dead xs)

pub is_done-settle_all :
    (f : ℕ) (fs : List ℕ) (s : Settling) (xs : List (ℕ × Settling))
    → is_done f (settle_all fs s xs) ≡ (if contains f fs then true else is_done f xs)
unfolding settle_all
is_done-settle_all f [] s xs = ground arith
is_done-settle_all f (g ∷ fs) s xs =
    ground (arith, is_done-settle_all f fs s (settle g s xs), is_done-settle f g s xs)

pub times-settle_all :
    (fs : List ℕ) (s : Settling) (xs : List (ℕ × Settling))
    → ((h : ℕ) → times h xs ≤ 1)
    → (f : ℕ) → times f (settle_all fs s xs) ≤ 1
unfolding settle_all
times-settle_all [] s xs once = once
times-settle_all (g ∷ fs) s xs once =
    times-settle_all fs s (settle g s xs) (λ f. times-settle f g s xs once)

pub values-get : (k f : ℕ) (d : List (ℕ × ℕ)) → Dict.get k d ≡ some f → contains f (values d) ≡ true
unfolding values Dict.get
values-get k f [] h = cc
values-get k f ((j, g) ∷ d) h = ground (arith, values-get k f d)

pub values-put :
    (k f g : ℕ) (d : List (ℕ × ℕ))
    → contains g (values (Dict.put k f d)) ≡ true
    → (f ≡ g) ⊎ (contains g (values d) ≡ true)
unfolding values Dict.put
values-put k f g [] h = ground arith
values-put k f g ((j, i) ∷ d) h = ground (arith, values-put k f g d)

pub values-without :
    (k g : ℕ) (d : List (ℕ × ℕ))
    → contains g (values (Dict.without k d)) ≡ true
    → contains g (values d) ≡ true
unfolding values Dict.without
values-without k g [] h = h
values-without k g ((j, i) ∷ d) h = ground (arith, values-without k g d)

pub values-get_name :
    (k : String) (f : ℕ) (d : List (String × ℕ))
    → Names.get k d ≡ some f
    → contains f (values d) ≡ true
unfolding values Names.get
values-get_name k f [] h = cc
values-get_name k f ((j, g) ∷ d) h = ground (arith, values-get_name k f d)

pub values-put_name :
    (k : String) (f g : ℕ) (d : List (String × ℕ))
    → contains g (values (Names.put k f d)) ≡ true
    → (f ≡ g) ⊎ (contains g (values d) ≡ true)
unfolding values Names.put
values-put_name k f g [] h = ground arith
values-put_name k f g ((j, i) ∷ d) h = ground (arith, values-put_name k f g d)

pub values-without_name :
    (k : String) (g : ℕ) (d : List (String × ℕ))
    → contains g (values (Names.without k d)) ≡ true
    → contains g (values d) ≡ true
unfolding values Names.without
values-without_name k g [] h = h
values-without_name k g ((j, i) ∷ d) h = ground (arith, values-without_name k g d)
