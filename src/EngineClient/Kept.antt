-- ===== src/EngineClient/Kept.antt =====
-- The futures of AsyncMPClient (lean_vllm/engine/core_client.py) and the entries they are found by:
-- what each of its operations keeps of them.
use lean_vllm.Prelude.{
  ℕ, ◌≤◌, false, ◌∷◌, ◌++◌, ◌<◌, String, ◌≡◌, ◌⊎◌, inl, inr, ap, ◌∙◌, true, Option, none, some,
  List, [], ◌==◌, if◌then◌else◌, arith, Bool-cases, str_eq, str_eq_iff,
}
use lean_vllm.Prelude.Counting.{contains}
use lean_vllm.Prelude.Dict
use lean_vllm.Prelude.Names
use lean_vllm.EngineClient.{Settling, is_done, settle, fail_named, fail_numbered}
use lean_vllm.EngineClient.Futures.{
  times, values, settle_all, fail_named_lem, fail_numbered_lem, is_done-settle, times-settle,
  is_done-settle_all, times-settle_all, values-get, values-without, values-get_name,
  values-without_name,
}

-- Nobody else's entry goes: the one of the key is that of a done future, or is gone.
unfoldable pub Own : Option ℕ → List (ℕ × Settling) → Type 0
Own entry settled = (f : ℕ) → entry ≡ some f → is_done f settled ≡ true

-- What a future that is not done is found by.
abbrev pub Waits : List (String × ℕ) → List (ℕ × ℕ) → ℕ → Type 0
Waits adding calls f =
    ((request_id : String) × (Names.get request_id adding ≡ some f))
    ⊎ ((call_id : ℕ) × (Dict.get call_id calls ≡ some f))

-- The future of an entry that goes while it is not done.
abbrev pub lost_of : Option ℕ → List (ℕ × Settling) → List ℕ
lost_of none settled = []
lost_of (some f) settled = if is_done f settled then [] else f ∷ []

pub lost-here :
    (g : ℕ) (xs : List (ℕ × Settling)) (lost : List ℕ)
    → is_done g xs ≡ false
    → contains g (lost_of (some g) xs ++ lost) ≡ true
unfolding contains
lost-here g xs lost pending = ground (arith, pending)

pub lost-there :
    (g : ℕ) (entry : Option ℕ) (xs : List (ℕ × Settling)) (lost : List ℕ)
    → contains g lost ≡ true
    → contains g (lost_of entry xs ++ lost) ≡ true
unfolding contains
lost-there g none xs lost h = h
lost-there g (some f) xs lost h = elim (Bool-cases (is_done f xs)) [
  | inl done ↦ simp done h
  | inr pending ↦ simp pending (ground (arith, h))
]

-- Of `n` futures and `m` calls: none is settled twice, and each is done, can still be found or is
-- lost.
pub record IsKept (settled : List (ℕ × Settling)) (adding : List (String × ℕ))
    (calls : List (ℕ × ℕ)) (n m : ℕ) (lost : List ℕ) : Type 0 where
  pub once : (f : ℕ) → times f settled ≤ 1
  pub settled_below : (f : ℕ) → is_done f settled ≡ true → f < n
  pub adding_below : (f : ℕ) → contains f (values adding) ≡ true → f < n
  pub calls_below : (f : ℕ) → contains f (values calls) ≡ true → f < n
  pub keys_below : (k f : ℕ) → Dict.get k calls ≡ some f → k < m
  pub kept :
      (f : ℕ)
      → f < n
      → (is_done f settled ≡ true) ⊎ (Waits adding calls f ⊎ (contains f lost ≡ true))

pub failed-IsKept :
    {xs : List (ℕ × Settling)} {adding : List (String × ℕ)} {calls : List (ℕ × ℕ)} {n m : ℕ}
    {lost : List ℕ}
    → IsKept xs adding calls n m lost
    → IsKept (fail_numbered calls (fail_named adding xs)) [] [] n m lost
unfolding values Dict.get
failed-IsKept {xs} {adding} {calls} {n} {m} {lost} i =
    let e : fail_numbered calls (fail_named adding xs)
        ≡ settle_all (values calls) Settling.dead (settle_all (values adding) Settling.dead xs) =
      fail_numbered_lem calls _
      ∙ ap (λ ys. settle_all (values calls) Settling.dead ys) (fail_named_lem adding xs) in
    let done : (f : ℕ)
        → is_done f (fail_numbered calls (fail_named adding xs)) ≡ (
            if contains f (values calls)
            then true
            else if contains f (values adding)
            then true
            else is_done f xs) =
      λ f.
        ap (is_done f) e
        ∙ ground (
          arith,
          is_done-settle_all f (values calls) Settling.dead
              (settle_all (values adding) Settling.dead xs),
          is_done-settle_all f (values adding) Settling.dead xs,
        ) in
    record {
      once = λ f. rw e (
          times-settle_all (values calls) Settling.dead _
            (times-settle_all (values adding) Settling.dead xs i.once) f);
      settled_below =
          λ f h. ground (arith, done f, i.settled_below f, i.adding_below f, i.calls_below f, h);
      adding_below = λ f h. ground arith;
      calls_below = λ f h. ground arith;
      keys_below = λ k f h. cc;
      kept = λ f h. elim (i.kept f h) [
        | inl d ↦ inl (ground (arith, done f, d))
        | inr (inl (inl (k, g))) ↦ inl (ground (arith, done f, values-get_name k f adding g))
        | inr (inl (inr (k, g))) ↦ inl (ground (arith, done f, values-get k f calls g))
        | inr (inr l) ↦ inr (inr l)
      ];
    }

pub settled-IsKept :
    {xs : List (ℕ × Settling)} {adding : List (String × ℕ)} {calls : List (ℕ × ℕ)} {n m : ℕ}
    {lost : List ℕ} (f : ℕ) (s : Settling)
    → f < n
    → IsKept xs adding calls n m lost
    → IsKept (settle f s xs) adding calls n m lost
settled-IsKept {xs} f s below i = record {
  once = λ g. times-settle g f s xs i.once;
  settled_below = λ g h. ground (arith, is_done-settle g f s xs, i.settled_below g, below, h);
  adding_below = i.adding_below;
  calls_below = i.calls_below;
  keys_below = i.keys_below;
  kept = λ g h. elim (i.kept g h) [
    | inl d ↦ inl (ground (arith, is_done-settle g f s xs, d))
    | inr w ↦ inr w
  ];
}

-- An entry that is its own may go.
pub left_name-IsKept :
    {xs : List (ℕ × Settling)} {adding : List (String × ℕ)} {calls : List (ℕ × ℕ)} {n m : ℕ}
    {lost : List ℕ} (request_id : String)
    → Own (Names.get request_id adding) xs
    → IsKept xs adding calls n m lost
    → IsKept xs (Names.without request_id adding) calls n m lost
unfolding Own
left_name-IsKept {xs} {adding} {calls} request_id own i = record {
  once = i.once;
  settled_below = i.settled_below;
  adding_below = λ g h. i.adding_below g (values-without_name request_id g adding h);
  calls_below = i.calls_below;
  keys_below = i.keys_below;
  kept = λ g h. elim (i.kept g h) [
    | inl d ↦ inl d
    | inr (inr l) ↦ inr (inr l)
    | inr (inl (inr w)) ↦ inr (inl (inr w))
    | inr (inl (inl (k, w))) ↦ elim (Bool-cases (str_eq request_id k)) [
      | inl same ↦
          let eq : request_id ≡ k = ground (arith, str_eq_iff request_id k, same) in
          inl (own g (ap (λ x. Names.get x adding) eq ∙ w))
      | inr other ↦ inr (inl (inl (k, rw (Names.get-without request_id k adding, other) w)))
    ]
  ];
}

pub left_call-IsKept :
    {xs : List (ℕ × Settling)} {adding : List (String × ℕ)} {calls : List (ℕ × ℕ)} {n m : ℕ}
    {lost : List ℕ} (call_id : ℕ)
    → Own (Dict.get call_id calls) xs
    → IsKept xs adding calls n m lost
    → IsKept xs adding (Dict.without call_id calls) n m lost
unfolding Own
left_call-IsKept {xs} {adding} {calls} call_id own i = record {
  once = i.once;
  settled_below = i.settled_below;
  adding_below = i.adding_below;
  calls_below = λ g h. i.calls_below g (values-without call_id g calls h);
  keys_below = λ k f h. ground (arith, i.keys_below k f, Dict.get-without call_id k calls, h);
  kept = λ g h. elim (i.kept g h) [
    | inl d ↦ inl d
    | inr (inr l) ↦ inr (inr l)
    | inr (inl (inl w)) ↦ inr (inl (inl w))
    | inr (inl (inr (k, w))) ↦ elim (Bool-cases (call_id == k)) [
      | inl same ↦
          let eq : call_id ≡ k = ground (arith, same) in
          inl (own g (ap (λ x. Dict.get x calls) eq ∙ w))
      | inr other ↦ inr (inl (inr (k, rw (Dict.get-without call_id k calls, other) w)))
    ]
  ];
}
