-- ===== src/Scheduler/Changes.antt =====
-- Soundness is kept when a sequence changes, gives its blocks back, or leaves.
use mathlib.Core.Option.{some-injective}
use lean_vllm.Prelude.{
  subst, ℕ, ◌+◌, ◌<◌, ◌≡◌, refl, sym, ap, ◌∙◌, inl, inr, String, str_eq, str_eq_iff, true, false,
  some, List, [], arith, ◌==◌, Bool-cases,
}
use lean_vllm.Prelude.Counting.{count}
use lean_vllm.Prelude.Dict
use lean_vllm.Prelude.Names
use lean_vllm.Sequence.{Sequence}
use lean_vllm.Sequence.Commit.{IsHashed}
use lean_vllm.BlockManager.{BlockManager}
use lean_vllm.BlockManager.Release.{Released}
use lean_vllm.BlockManager.Valid.{IsValid, IsValid-ext, hold}
use lean_vllm.Scheduler.Sound.{
  IsIdle, IsSound, Known, focus, get_other, get_self, rest_of, total, unfocus,
}

-- One sequence and the manager change.
module _ {m : BlockManager} {store : List (ℕ × Sequence)} {seqs : List (String × ℕ)} {w a : ℕ → ℕ}
    (v : IsSound m store seqs w a) (m' : BlockManager) (id : ℕ) (s s' : Sequence)
    (there : Dict.get id store ≡ some s) (same : m'.settings ≡ m.settings)
    (blocks : IsValid m' (total (Dict.put id s' store))) (hashed : IsHashed m.settings s')
    (named : s'.request_id ≡ s.request_id) where
  written-Known :
      (j : ℕ) → Known m.settings store seqs j → Known m'.settings (Dict.put id s' store) seqs j
  written-Known j k = elim (Bool-cases (id == j)) [
    | inl here ↦
        let e : id ≡ j = ground arith in
        let e' : k.sequence ≡ s =
          some-injective _ _ (sym k.there ∙ ap (λ i. Dict.get i store) (sym e) ∙ there) in
        record {
          sequence = s';
          there = ap (λ i. Dict.get i (Dict.put id s' store)) (sym e) ∙ get_self id s' store;
          hashed = subst (λ c. IsHashed c s') (sym same) hashed;
          named = ap (λ n. Names.get n seqs) (named ∙ sym (ap (λ t. t.request_id) e')) ∙ k.named;
        }
    | inr other ↦ record {
      sequence = k.sequence;
      there = get_other id j s' store other ∙ k.there;
      hashed = subst (λ c. IsHashed c k.sequence) (sym same) k.hashed;
      named = k.named;
    }
  ]

  -- The queues stay, if what waits is idle.
  pub written : (0 < w id → IsIdle s') → IsSound m' (Dict.put id s' store) seqs w a
  written waits = record {
    positive = rw same v.positive;
    blocks = blocks;
    distinct = v.distinct;
    known = λ j h. written-Known j (v.known j h);
    idle = λ j t h g. elim (Bool-cases (id == j)) [
      | inl here ↦
          let e : id ≡ j = ground arith in
          let e' : s' ≡ t =
            some-injective _ _
              (sym (get_self id s' store) ∙ ap (λ i. Dict.get i (Dict.put id s' store)) e ∙ g) in
          subst IsIdle e' (waits (ground (arith, ap w e)))
      | inr other ↦ v.idle j t h (sym (get_other id j s' store other) ∙ g)
    ];
  }

-- A sequence changes, but not its block table.
pub rewritten :
    {m : BlockManager} {store : List (ℕ × Sequence)} {seqs : List (String × ℕ)} {w a : ℕ → ℕ}
    (v : IsSound m store seqs w a) (id : ℕ) (s s' : Sequence)
    → Dict.get id store ≡ some s
    → s'.block_table ≡ s.block_table
    → IsHashed m.settings s'
    → s'.request_id ≡ s.request_id
    → (0 < w id → (s'.num_pending_tokens ≡ 0) × (s'.is_prefill ≡ true))
    → IsSound m (Dict.put id s' store) seqs w a
rewritten {m} {store = store} v id s s' there same hashed named waits =
    written v m id s s' there refl
      (unfocus id s s' store there (
        subst (λ table. IsValid m (hold table (rest_of id s store))) (sym same)
          (focus id s store there v.blocks)))
      hashed named (λ h. ((waits h).0, (waits h).1, same ∙ (v.idle id s h there).2))

-- A sequence gave its blocks back.
pub given_back :
    {m : BlockManager} {store : List (ℕ × Sequence)} {seqs : List (String × ℕ)} {w a : ℕ → ℕ}
    (v : IsSound m store seqs w a) (m' : BlockManager) (id : ℕ) (s s' : Sequence)
    → Dict.get id store ≡ some s
    → Released m m' (rest_of id s store)
    → s'.block_table ≡ []
    → IsHashed m.settings s'
    → s'.request_id ≡ s.request_id
    → (0 < w id → (s'.num_pending_tokens ≡ 0) × (s'.is_prefill ≡ true))
    → IsSound m' (Dict.put id s' store) seqs w a
given_back {store = store} v m' id s s' there r none_left hashed named waits =
    written v m' id s s' there r.same_settings
      (unfocus id s s' store there (
        IsValid-ext _ _
          (λ i. let e : count i s'.block_table ≡ 0 = ap (count i) none_left in omega (arith, e))
          r.valid))
      hashed named (λ h. ((waits h).0, (waits h).1, none_left))

-- A request leaves: its sequence stands in no queue any more, and `seqs` loses it.
pub forgotten :
    {m : BlockManager} {store : List (ℕ × Sequence)} {seqs : List (String × ℕ)} (w a : ℕ → ℕ)
    (id : ℕ) (request_id : String)
    → IsSound m store seqs w a
    → w id + a id ≡ 0
    → Names.get request_id seqs ≡ some id
    → IsSound m store (Names.without request_id seqs) w a
forgotten {store = store} {seqs = seqs} w a id request_id v gone named = record {
  positive = v.positive;
  blocks = v.blocks;
  distinct = v.distinct;
  known = λ j h.
      let k = v.known j h in
      let apart : str_eq request_id k.sequence.request_id ≡ false =
        elim (Bool-cases (str_eq request_id k.sequence.request_id)) [
          | inr other ↦ other
          | inl same ↦
              let e : request_id ≡ k.sequence.request_id = (str_eq_iff _ _).0 same in
              let e' : id ≡ j =
                some-injective _ _ (sym named ∙ ap (λ n. Names.get n seqs) e ∙ k.named) in
              absurd (ground (arith, ap (λ i. w i + a i) e'))
        ] in
      record {
        sequence = k.sequence;
        there = k.there;
        hashed = k.hashed;
        named = Names.get-without request_id k.sequence.request_id seqs ∙ simp apart k.named;
      };
  idle = v.idle;
}
