-- ===== src/Scheduler/Admitting.antt =====
-- The loops over the waiting sequences: each is admitted with its blocks, refused, or ends the loop.
use lean_vllm.Prelude.{
  ℕ, ◌+◌, ◌≤◌, ◌≡◌, refl, ap, inl, inr, ◌⊎◌, true, Option, none, some, List, [], ◌∷◌, ◌++◌, arith,
  ltb, length, Bool-cases,
}
use lean_vllm.Prelude.Counting.{count}
use lean_vllm.Prelude.Dict
use lean_vllm.Sequence.{Sequence, SequenceStatus, num_blocks}
use lean_vllm.Sequence.Commit.{IsHashed-same}
use lean_vllm.BlockManager.Valid.{IsValid, IsValid-ext}
use lean_vllm.BlockManager.Admission.{Admitted, can_allocate_lem}
use lean_vllm.Policy.{Entry}
use lean_vllm.Policy.Members.{times, times-append}
use lean_vllm.Scheduler.{schedule_tokens}
use lean_vllm.Scheduler.State.{Scheduler, num_lookahead_tokens}
use lean_vllm.Scheduler.Moves.{
  Step, schedule_seq, drop_capacity, never_fits, admit_running, admit_allocated, admit,
}
use lean_vllm.Scheduler.Steps.{refuse, has_slot, admit_next, num_prompt_step_tokens, admit_whole}
use lean_vllm.Scheduler.Sound.{rest_of, focus, unfocus, requeued, known_at}
use lean_vllm.Scheduler.Changes.{written}
use lean_vllm.Scheduler.Steady.{active, waits, nobody, only, IsSteady, IsWithin}
use lean_vllm.Scheduler.Preempt.{dropped, drop_lem}
use lean_vllm.Scheduler.Rows.{schedule_seq-IsWithin}

-- What a round of the admission loops leaves.
pub record Admission (t : Step) (result : Option Step) : Type 0 where
  pub step : Step
  pub returns : result ≡ some step
  pub steady : IsSteady step nobody
  pub same_still : step.still_running ≡ t.still_running
  pub shorter : length step.scheduler.waiting ≤ length t.scheduler.waiting
  pub same_config : step.scheduler.config ≡ t.scheduler.config
  pub same_connector : step.scheduler.connector ≡ t.scheduler.connector
  pub within : IsWithin t → IsWithin step

-- A round ends the loop, or takes the head of the queue.
abbrev Fate : Step → List Entry → Option (Option Step) → Type 0
Fate t rest result =
    (result ≡ some none)
    ⊎ ((taken : Option Step) × (a : Admission t taken) × (result ≡ some (some a.step))
        × (a.step.scheduler.waiting ≡ rest))

-- The head of the queue, as the store has it.
module _ (t : Step) (now : ℕ) (e : Entry) (rest : List Entry) (s : Sequence) (v : IsSteady t nobody)
    (heads : t.scheduler.waiting ≡ e ∷ rest)
    (there : Dict.get e.seq_id t.scheduler.store ≡ some s) where
  counts : (id : ℕ) → waits t id ≡ only e id + times id rest
  counts id = ap (times id) heads

  refuse-Admission : (a : Admission t (refuse t now e rest s)) × (a.step.scheduler.waiting ≡ rest)
  unfolding refuse drop_capacity
  refuse-Admission =
      let σ = t.scheduler in
      let σ1 : Scheduler = record σ { waiting = rest } in
      let w' : ℕ → ℕ = λ id. times id rest in
      let (drops, sound) =
        drop_lem σ1 now e.seq_id s "capacity" (waits t) (active t nobody) w' (active t nobody) v
          there (ground (arith, counts e.seq_id)) (λ j. (omega (arith, counts j), omega arith))
          (ground (arith, counts e.seq_id, v.distinct e.seq_id)) in
      (
        record {
          step = record t {
            scheduler = dropped σ1 now e.seq_id s "capacity";
            output = record t.output { dropped = t.output.dropped ++ e.seq_id ∷ [] };
          };
          returns = simp drops;
          steady = sound;
          same_still = refl;
          shorter = omega (arith, ap length heads);
          same_config = refl;
          same_connector = refl;
          within = λ w. w;
        },
        refl,
      )

  idle : (s.num_pending_tokens ≡ 0) × (s.is_prefill ≡ true) × (s.block_table ≡ [])
  idle = v.idle e.seq_id s (ground (arith, counts e.seq_id)) there

  -- The manager without a sequence that holds nothing.
  alone : IsValid t.scheduler.block_manager (rest_of e.seq_id s t.scheduler.store)
  alone =
      IsValid-ext _ _
        (λ i. let c : count i s.block_table ≡ 0 = ap (count i) idle.2 in omega (arith, c))
        (focus e.seq_id s t.scheduler.store there v.blocks)

  admit-Admission :
      (n : ℕ)
      → Admitted t.scheduler.block_manager
          (rest_of e.seq_id s t.scheduler.store)
          s
          (num_lookahead_tokens t.scheduler.config)
          n
      → t.scheduler.connector ≡ none
      → has_slot t ≡ true
      → (a : Admission t (admit t now e rest s n)) × (a.step.scheduler.waiting ≡ rest)
  unfolding admit admit_allocated admit_running schedule_seq schedule_tokens
  admit-Admission n a no_connector slot =
      let σ = t.scheduler in
      let (hashed, _) = known_at e.seq_id s v (ground (arith, counts e.seq_id)) there in
      let o = t.output in
      let t1 : Step = record t {
        scheduler = record σ { block_manager = a.manager; waiting = rest };
        output = record o {
          num_queried_blocks = o.num_queried_blocks + num_blocks a.manager.settings a.sequence;
          num_cached_blocks = o.num_cached_blocks + n;
        };
      } in
      let s1 : Sequence = record a.sequence { status = SequenceStatus.running } in
      let c = σ.config in
      let s2 =
        (schedule_tokens c.enable_chunked_prefill c.long_prefill_token_threshold now s1
          t.budget).0 in
      let w' : ℕ → ℕ = λ id. times id rest in
      let a' : ℕ → ℕ = λ id. active t nobody id + only e id in
      let v1 =
        requeued _ _ w' a' v (λ id. omega (arith, counts id))
          (λ id u h g. v.idle id u (omega (arith, counts id)) g) in
      let row = a.same_row in
      let hashed1 = IsHashed-same σ.block_manager.settings s s2 hashed (
        ap (λ u. u.token_ids) row,
        ap (λ u. u.num_tokens) row,
        ap (λ u. u.num_prompt_tokens) row,
        ap (λ u. u.last_token) row,
        ap (λ u. u.block_hashes) row,
      ) in
      let v2 =
        written v1 a.manager e.seq_id s s2 there a.same_settings
          (unfocus e.seq_id s s2 σ.store there a.valid) hashed1 (ap (λ u. u.request_id) row)
          (λ h. absurd (ground (arith, v1.distinct e.seq_id))) in
      (
        record {
          step = admit_running t1 now e a.sequence;
          returns = simp (a.returns, no_connector);
          steady =
              requeued w' a' _ _ v2 (λ id. omega (arith, times-append id σ.running (e ∷ [])))
                (λ id u h g. v2.idle id u h g);
          same_still = refl;
          shorter = omega (arith, ap length heads);
          same_config = refl;
          same_connector = refl;
          within = λ w.
              schedule_seq-IsWithin t1 now e.seq_id s1
                (λ decodes. absurd (cc (ap (λ u. u.is_prefill) row, idle.1, decodes)))
                (ground arith) w;
        },
        refl,
      )

  module _ (no_connector : t.scheduler.connector ≡ none) (slot : has_slot t ≡ true) where
    pub admit_next-Fate : Fate t rest (admit_next t now e rest)
    unfolding admit_next
    admit_next-Fate =
        let σ = t.scheduler in
        let (hashed, _) = known_at e.seq_id s v (ground (arith, counts e.seq_id)) there in
        elim (Bool-cases (never_fits σ s)) [
          | inl never ↦
              let (a, left) = refuse-Admission in inr (_, a, simp (there, never, a.returns), left)
          | inr fits ↦
              elim (can_allocate_lem σ.block_manager (rest_of e.seq_id s σ.store) s
                (num_lookahead_tokens σ.config) alone idle.2 v.positive hashed idle.0) [
                  | inl (full, _) ↦ inl (simp (there, fits, full))
                  | inr (n, granted, _, admitted) ↦
                      let (a, left) = admit-Admission n admitted no_connector slot in
                      inr (_, a, simp (there, fits, granted, a.returns), left)
                ]
        ]

    pub admit_whole-Fate : Fate t rest (admit_whole t now e rest)
    unfolding admit_whole
    admit_whole-Fate =
        let σ = t.scheduler in
        let (hashed, _) = known_at e.seq_id s v (ground (arith, counts e.seq_id)) there in
        elim (Bool-cases (never_fits σ s)) [
          | inl never ↦
              let (a, left) = refuse-Admission in inr (_, a, simp (there, never, a.returns), left)
          | inr fits ↦
              elim (can_allocate_lem σ.block_manager (rest_of e.seq_id s σ.store) s
                (num_lookahead_tokens σ.config) alone idle.2 v.positive hashed idle.0) [
                  | inl (full, _) ↦ inl (simp (there, fits, full))
                  | inr (n, granted, _, admitted) ↦
                      elim (Bool-cases
                        (ltb σ.config.max_num_batched_tokens (num_prompt_step_tokens σ s n))) [
                          | inl above ↦
                              let (a, left) = refuse-Admission in
                              inr (_, a, simp (there, fits, granted, above, a.returns), left)
                          | inr below ↦
                              elim (Bool-cases (ltb t.budget (num_prompt_step_tokens σ s n))) [
                                | inl short ↦ inl (simp (there, fits, granted, below, short))
                                | inr enough ↦
                                    let (a, left) = admit-Admission n admitted no_connector slot in
                                    inr (
                                      _,
                                      a,
                                      simp (there, fits, granted, below, enough, a.returns),
                                      left,
                                    )
                              ]
                        ]
                ]
        ]
