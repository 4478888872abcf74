-- ===== src/Scheduler/Requests.antt =====
-- add and abort: a request comes to the waiting queue, or leaves the scheduler with its blocks.
use mathlib.Core.Option.{some-injective}
use lean_vllm.Prelude.{
  subst, ℕ, ◌+◌, ◌≤◌, ◌<◌, ◌≡◌, refl, sym, ap, ◌∙◌, inl, inr, ◌⊎◌, String, str_eq, str_eq_iff, Bool,
  true, false, ◌||◌, none, some, List, [], arith, ◌==◌, to_ℕ, Bool-cases, ltb, ltb→lt,
}
use lean_vllm.Prelude.Dict
use lean_vllm.Prelude.Names
use lean_vllm.Prelude.Counting.{count}
use lean_vllm.Sequence.{Sequence, SequenceStatus, drop_pending}
use lean_vllm.Sequence.Commit.{IsHashed, IsHashed-same}
use lean_vllm.BlockManager.Valid.{IsValid-ext}
use lean_vllm.BlockManager.Release.{deallocate-Released}
use lean_vllm.Policy.{Entry, entry_of}
use lean_vllm.Policy
use lean_vllm.Policy.Members.{times, times-add, remove_lem}
use lean_vllm.Scheduler.{finish}
use lean_vllm.Scheduler.State.{Scheduler, add, release_blocks, free, unqueue, abort_live, abort}
use lean_vllm.Scheduler.Sound.{
  total-put_new, rest_of, focus, Known, IsIdle, requeued, known_at, get_self, get_other,
}
use lean_vllm.Scheduler.Changes.{given_back, rewritten, forgotten}
use lean_vllm.Scheduler.Rounds.{IsReady}

-- A request of the same id is in flight.
abbrev pub taken : Scheduler → String → Bool
taken σ request_id =
    Names.has request_id σ.seqs || Names.has request_id σ.recving || Names.has request_id σ.sending

module _ (σ : Scheduler) (s : Sequence) (v : IsReady σ)
    (hashed : IsHashed σ.block_manager.settings s) (idle : IsIdle s)
    (new : Dict.get s.seq_id σ.store ≡ none) where
  abbrev pub added : Scheduler
  added = record σ {
    store = Dict.put s.seq_id s σ.store;
    seqs = Names.put s.request_id s.seq_id σ.seqs;
    waiting = Policy.add σ.config.policy (entry_of s) σ.waiting;
  }

  counts : (j : ℕ) → times j added.waiting ≡ to_ℕ (s.seq_id == j) + times j σ.waiting
  unfolding entry_of
  counts j = times-add j σ.config.policy (entry_of s) σ.waiting

  absent : times s.seq_id σ.waiting + times s.seq_id σ.running ≡ 0
  absent = elim (Bool-cases (ltb 0 (times s.seq_id σ.waiting + times s.seq_id σ.running))) [
    | inl present ↦ absurd (cc (new, (v.known s.seq_id (ltb→lt _ _ present)).there))
    | inr missing ↦ ground (arith, missing)
  ]

  added-Known :
      Names.get s.request_id σ.seqs ≡ none
      → (j : ℕ) → 0 < times j added.waiting + times j added.running
      → Known σ.block_manager.settings added.store added.seqs j
  added-Known free_id j h = elim (Bool-cases (s.seq_id == j)) [
    | inl here ↦
        let e : s.seq_id ≡ j = ground arith in
        record {
          sequence = s;
          there = ap (λ i. Dict.get i added.store) (sym e) ∙ get_self s.seq_id s σ.store;
          hashed = hashed;
          named =
              Names.get-put s.request_id s.request_id s.seq_id σ.seqs
              ∙ ground (arith, str_eq_iff s.request_id s.request_id, e);
        }
    | inr other ↦
        let k = v.known j (ground (arith, counts j)) in
        let apart : str_eq s.request_id k.sequence.request_id ≡ false =
          elim (Bool-cases (str_eq s.request_id k.sequence.request_id)) [
            | inr differs ↦ differs
            | inl same ↦
                let e : s.request_id ≡ k.sequence.request_id = (str_eq_iff _ _).0 same in
                absurd (cc (free_id, k.named, e))
          ] in
        record {
          sequence = k.sequence;
          there = get_other s.seq_id j s σ.store other ∙ k.there;
          hashed = k.hashed;
          named =
              Names.get-put s.request_id k.sequence.request_id s.seq_id σ.seqs ∙ simp apart k.named;
        }
  ]

  pub added-IsReady : Names.get s.request_id σ.seqs ≡ none → IsReady added
  added-IsReady free_id = record {
    positive = v.positive;
    blocks =
        IsValid-ext _ _
          (λ i.
            let c : count i s.block_table ≡ 0 = ap (count i) idle.2 in
            omega (arith, c, total-put_new s.seq_id s σ.store i new))
          v.blocks;
    distinct = λ j. elim (Bool-cases (s.seq_id == j)) [
      | inl here ↦
          let e : s.seq_id ≡ j = ground arith in
          ground
            (arith, counts j, absent, ap (λ i. times i σ.waiting) e, ap (λ i. times i σ.running) e)
      | inr other ↦ ground (arith, counts j, v.distinct j)
    ];
    known = added-Known free_id;
    idle = λ j t h g. elim (Bool-cases (s.seq_id == j)) [
      | inl here ↦
          let e : s.seq_id ≡ j = ground arith in
          let e' : s ≡ t =
            some-injective _ _
              (sym (get_self s.seq_id s σ.store) ∙ ap (λ i. Dict.get i added.store) e ∙ g) in
          subst IsIdle e' idle
      | inr other ↦
          v.idle j t (ground (arith, counts j)) (sym (get_other s.seq_id j s σ.store other) ∙ g)
    ];
  }

  -- Take a ready scheduler and a new request: its id names no stored sequence, it is hashed as its
  -- tokens, starts with its prompt, and has no block and nothing pending. If another request of its request_id is live, or
  -- loading or sending blocks, add fails with DuplicateRequestId. Otherwise it returns a ready
  -- scheduler that knows the request and has it once in the waiting queue.
  pub add_lem :
      ((taken σ s.request_id ≡ true) × (add σ s ≡ none))
      ⊎ ((taken σ s.request_id ≡ false)
          × ((σ' : Scheduler) × (add σ s ≡ some σ')
              × IsReady σ'
              × (Names.get s.request_id σ'.seqs ≡ some s.seq_id)
              × (Dict.get s.seq_id σ'.store ≡ some s)
              × (times s.seq_id σ'.waiting ≡ 1)))
  unfolding add
  add_lem = elim (Bool-cases (taken σ s.request_id)) [
    | inl duplicate ↦ inl (duplicate, simp duplicate)
    | inr free_id ↦ inr (
      free_id,
      (
        added,
        simp free_id,
        added-IsReady (Names.not_has-get s.request_id σ.seqs (ground arith)),
        Names.get-put s.request_id s.request_id s.seq_id σ.seqs
            ∙ ground (arith, str_eq_iff s.request_id s.request_id),
        get_self s.seq_id s σ.store,
        ground (arith, counts s.seq_id, absent),
      ),
    )
  ]

-- Where a live sequence stands, without a connector.
abbrev pub IsQueued : Scheduler → ℕ → Sequence → Type 0
IsQueued σ id s =
    ((s.status ≡ SequenceStatus.waiting) × (0 < times id σ.waiting))
    ⊎ ((s.status ≡ SequenceStatus.running) × (0 < times id σ.running))

-- The request is in no queue and has no block, and its sequence is finished.
abbrev pub IsGone : Scheduler → ℕ → String → String → Type 0
IsGone σ id request_id reason =
    (times id σ.waiting + times id σ.running ≡ 0)
    × (Names.get request_id σ.seqs ≡ none)
    × ((s : Sequence) × (Dict.get id σ.store ≡ some s)
        × (s.status ≡ SequenceStatus.finished)
        × (s.finish_reason ≡ some reason)
        × (s.block_table ≡ []))

module _ (σ : Scheduler) (now id : ℕ) (s : Sequence) (request_id reason : String) (v : IsReady σ)
    (no_connector : σ.connector ≡ none) (there : Dict.get id σ.store ≡ some s)
    (named : s.request_id ≡ request_id) where
  -- The sequence left its queue.
  leaves :
      (waiting running : List Entry)
      → (0 < times id σ.waiting + times id σ.running)
      → ((j : ℕ)
          → times j waiting + times j running + to_ℕ (id == j)
            ≡ times j σ.waiting + times j σ.running)
      → ((j : ℕ) → times j waiting ≤ times j σ.waiting)
      → let s1 = finish (drop_pending s) reason now in
        let σ1 = record σ {
          store = Dict.put id s1 σ.store;
          seqs = Names.without request_id σ.seqs;
          waiting = waiting;
          running = running;
        } in
        (σ' : Scheduler) × (free σ1 id s1 ≡ some σ') × IsReady σ' × IsGone σ' id request_id reason
  unfolding free release_blocks finish drop_pending
  leaves waiting running live counts fewer =
      let (hashed, owned) = known_at id s v live there in
      let v0 =
        requeued _ _ (λ j. times j waiting) (λ j. times j running) v (λ j. omega (arith, counts j))
          (λ j t h g. v.idle j t (omega (arith, fewer j)) g) in
      let s1 : Sequence = finish (drop_pending s) reason now in
      let gone : times id waiting + times id running ≡ 0 =
        ground (arith, counts id, v.distinct id) in
      let v1 =
        rewritten v0 id s s1 there refl (IsHashed-same _ s s1 hashed (refl, refl, refl, refl, refl))
          refl (λ h. absurd (omega (arith, gone))) in
      let back = get_self id s1 σ.store in
      let store1 = Dict.put id s1 σ.store in
      let (m', returns, r) =
        deallocate-Released σ.block_manager (rest_of id s1 store1) s1
          (focus id s1 store1 back v1.blocks) in
      let s2 : Sequence = record s1 {
        num_cached_tokens = 0;
        num_published_blocks = 0;
        block_table = [];
      } in
      let v2 =
        given_back v1 m' id s1 s2 back r refl
          (IsHashed-same _ s s2 hashed (refl, refl, refl, refl, refl)) refl
          (λ h. absurd (omega (arith, gone))) in
      let owned' : Names.get request_id σ.seqs ≡ some id =
        ap (λ n. Names.get n σ.seqs) (sym named) ∙ owned in
      (
        record σ {
          store = Dict.put id s2 store1;
          seqs = Names.without request_id σ.seqs;
          block_manager = m';
          waiting = waiting;
          running = running;
        },
        simp (no_connector, returns),
        forgotten _ _ id request_id v2 gone owned',
        (
          gone,
          Names.get-without request_id request_id σ.seqs
              ∙ ground (arith, str_eq_iff request_id request_id),
          (s2, get_self id s2 store1, refl, refl, refl),
        ),
      )

  -- Take a ready scheduler without a connector, and a live request, whose sequence waits or runs
  -- as its status says. abort returns true, and the scheduler is ready again: the sequence stands
  -- in no queue, `seqs` has lost the request, its blocks went back, and it is finished for the
  -- given reason.
  pub abort_lem :
      IsQueued σ id s
      → Names.get request_id σ.seqs ≡ some id
      → (σ' : Scheduler) × (abort σ now request_id reason ≡ some (σ', true))
        × IsReady σ'
        × IsGone σ' id request_id reason
  unfolding abort abort_live unqueue
  abort_lem queued found = elim queued [
    | inl (status, waits) ↦
        let (left, removed, counts, _) = remove_lem id σ.waiting waits in
        let (σ', frees, ready, gone) =
          leaves left σ.running (omega arith) (λ j. omega (arith, counts j))
            (λ j. omega (arith, counts j)) in
        (σ', simp (found, there, status, removed, frees), ready, gone)
    | inr (status, runs) ↦
        let (left, removed, counts, _) = remove_lem id σ.running runs in
        let (σ', frees, ready, gone) =
          leaves σ.waiting left (omega arith) (λ j. omega (arith, counts j)) (λ j. omega arith) in
        (σ', simp (found, there, status, removed, frees), ready, gone)
  ]
