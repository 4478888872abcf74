-- ===== src/EngineClient/Entries.antt =====
-- The entries of AsyncMPClient (lean_vllm/engine/core_client.py) that come and go: what becomes of
-- their futures.
use lean_vllm.Prelude.{
  ℕ, ◌+◌, ◌++◌, String, ◌≡◌, inl, inr, ap, ◌∙◌, Option, none, some, List, ◌==◌, arith, Bool-cases,
  str_eq, str_eq_iff,
}
use lean_vllm.Prelude.Dict
use lean_vllm.Prelude.Names
use lean_vllm.EngineClient.{Settling, is_done, settle_some}
use lean_vllm.EngineClient.Futures.{
  is_done-settle, values-get, values-put, values-get_name, values-put_name, values-without_name,
}
use lean_vllm.EngineClient.Kept.{
  Own, IsKept, lost_of, lost-here, lost-there, settled-IsKept, left_name-IsKept,
}

-- Any entry may go, with its future lost if that is not done.
pub took_name-IsKept :
    {xs : List (ℕ × Settling)} {adding : List (String × ℕ)} {calls : List (ℕ × ℕ)} {n m : ℕ}
    {lost : List ℕ} (request_id : String)
    → IsKept xs adding calls n m lost
    → IsKept xs
        (Names.without request_id adding)
        calls
        n
        m
        (lost_of (Names.get request_id adding) xs ++ lost)
took_name-IsKept {xs} {adding} {calls} {n} {m} {lost} request_id i = record {
  once = i.once;
  settled_below = i.settled_below;
  adding_below = λ g h. i.adding_below g (values-without_name request_id g adding h);
  calls_below = i.calls_below;
  keys_below = i.keys_below;
  kept = λ g h. elim (i.kept g h) [
    | inl d ↦ inl d
    | inr (inr l) ↦ inr (inr (lost-there g (Names.get request_id adding) xs lost l))
    | inr (inl (inr w)) ↦ inr (inl (inr w))
    | inr (inl (inl (k, w))) ↦ elim (Bool-cases (str_eq request_id k)) [
      | inl same ↦
          let eq : request_id ≡ k = ground (arith, str_eq_iff request_id k, same) in
          let entry : Names.get request_id adding ≡ some g = ap (λ x. Names.get x adding) eq ∙ w in
          elim (Bool-cases (is_done g xs)) [
            | inl d ↦ inl d
            | inr pending ↦ inr (inr (simp entry (lost-here g xs lost pending)))
          ]
      | inr other ↦ inr (inl (inl (k, rw (Names.get-without request_id k adding, other) w)))
    ]
  ];
}

-- A new future takes the entry of its request; the one that had it is lost if it is not done.
pub added-IsKept :
    {xs : List (ℕ × Settling)} {adding : List (String × ℕ)} {calls : List (ℕ × ℕ)} {n m : ℕ}
    {lost : List ℕ} (request_id : String)
    → IsKept xs adding calls n m lost
    → IsKept xs
        (Names.put request_id n adding)
        calls
        (n + 1)
        m
        (lost_of (Names.get request_id adding) xs ++ lost)
added-IsKept {xs} {adding} {calls} {n} {m} {lost} request_id i = record {
  once = i.once;
  settled_below = λ g h. omega (arith, i.settled_below g h);
  adding_below = λ g h. elim (values-put_name request_id n g adding h) [
    | inl new ↦ omega (arith, new)
    | inr old ↦ omega (arith, i.adding_below g old)
  ];
  calls_below = λ g h. omega (arith, i.calls_below g h);
  keys_below = i.keys_below;
  kept = λ g h. elim (Bool-cases (g == n)) [
    | inl new ↦
        let eq : n ≡ g = ground (arith, new) in
        inr (
          inl (
            inl (
              request_id,
              ground (
                arith,
                Names.get-put request_id request_id n adding,
                str_eq_iff request_id request_id,
                eq,
              ),
            )))
    | inr old ↦ elim (i.kept g (ground (arith, old, h))) [
      | inl d ↦ inl d
      | inr (inr l) ↦ inr (inr (lost-there g (Names.get request_id adding) xs lost l))
      | inr (inl (inr w)) ↦ inr (inl (inr w))
      | inr (inl (inl (k, w))) ↦ elim (Bool-cases (str_eq request_id k)) [
        | inl same ↦
            let eq : request_id ≡ k = ground (arith, str_eq_iff request_id k, same) in
            let entry : Names.get request_id adding ≡ some g =
              ap (λ x. Names.get x adding) eq ∙ w in
            elim (Bool-cases (is_done g xs)) [
              | inl d ↦ inl d
              | inr pending ↦ inr (inr (simp entry (lost-here g xs lost pending)))
            ]
        | inr other ↦
            inr (inl (inl (k, ground (arith, Names.get-put request_id k n adding, other, w))))
      ]
    ]
  ];
}

pub asked-IsKept :
    {xs : List (ℕ × Settling)} {adding : List (String × ℕ)} {calls : List (ℕ × ℕ)} {n m : ℕ}
    {lost : List ℕ}
    → IsKept xs adding calls n m lost
    → IsKept xs adding (Dict.put m n calls) (n + 1) (m + 1) lost
asked-IsKept {xs} {adding} {calls} {n} {m} {lost} i = record {
  once = i.once;
  settled_below = λ g h. omega (arith, i.settled_below g h);
  adding_below = λ g h. omega (arith, i.adding_below g h);
  calls_below = λ g h. elim (values-put m n g calls h) [
    | inl new ↦ omega (arith, new)
    | inr old ↦ omega (arith, i.calls_below g old)
  ];
  keys_below = λ k f h. ground (arith, Dict.get-put m k n calls, i.keys_below k f, h);
  kept = λ g h. elim (Bool-cases (g == n)) [
    | inl new ↦
        let eq : n ≡ g = ground (arith, new) in
        inr (inl (inr (m, ground (arith, Dict.get-put m m n calls, eq))))
    | inr old ↦ elim (i.kept g (ground (arith, old, h))) [
      | inl d ↦ inl d
      | inr (inr l) ↦ inr (inr l)
      | inr (inl (inl w)) ↦ inr (inl (inl w))
      | inr (inl (inr (k, w))) ↦
          inr (inl (inr (k, ground (arith, Dict.get-put m k n calls, i.keys_below k g w, w))))
    ]
  ];
}

-- A reply to an add settles its future and takes its entry.
pub answered-IsKept :
    {xs : List (ℕ × Settling)} {adding : List (String × ℕ)} {calls : List (ℕ × ℕ)} {n m : ℕ}
    {lost : List ℕ} (request_id : String) (s : Settling) (entry : Option ℕ)
    → Names.get request_id adding ≡ entry
    → IsKept xs adding calls n m lost
    → IsKept (settle_some entry s xs) (Names.without request_id adding) calls n m lost
unfolding Own
answered-IsKept request_id s none e i = left_name-IsKept request_id (λ f h. ground (arith, e, h)) i
answered-IsKept {xs} {adding} request_id s (some f) e i =
    left_name-IsKept request_id (λ g h. ground (arith, is_done-settle g f s xs, e, h))
      (settled-IsKept f s (i.adding_below f (values-get_name request_id f adding e)) i)

pub valued-IsKept :
    {xs : List (ℕ × Settling)} {adding : List (String × ℕ)} {calls : List (ℕ × ℕ)} {n m : ℕ}
    {lost : List ℕ} (call_id : ℕ) (s : Settling) (entry : Option ℕ)
    → Dict.get call_id calls ≡ entry
    → IsKept xs adding calls n m lost
    → IsKept (settle_some entry s xs) adding calls n m lost
valued-IsKept call_id s none e i = i
valued-IsKept {calls = calls} call_id s (some f) e i =
    settled-IsKept f s (i.calls_below f (values-get call_id f calls e)) i
