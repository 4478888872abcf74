-- ===== src/Scheduler/Preempt.antt =====
-- _preempt and the drop of a sequence that never fits: its blocks come back and the state stays
-- sound.
use lean_vllm.Prelude.{
  ℕ, ◌+◌, ◌≤◌, ◌<◌, ◌≡◌, refl, String, false, some, [], ◌∷◌, ◌++◌, arith, ◌==◌, Option, to_ℕ,
}
use lean_vllm.Prelude.Dict
use lean_vllm.Prelude.Names
use lean_vllm.Sequence.{Sequence, drop_pending, waiting}
use lean_vllm.Sequence.Commit.{IsHashed-same}
use lean_vllm.BlockManager.Release.{deallocate-Released}
use lean_vllm.Policy.{Entry}
use lean_vllm.Policy
use lean_vllm.Policy.Members.{times, times-requeue}
use lean_vllm.Scheduler.{finish}
use lean_vllm.Scheduler.State.{Scheduler, drop}
use lean_vllm.Scheduler.Moves.{Step, preempted_seq, preempt}
use lean_vllm.Scheduler.Sound.{
  queued, rest_of, focus, IsSound, requeued, known_at, get_self, get_other,
}
use lean_vllm.Scheduler.Changes.{given_back, rewritten, forgotten}
use lean_vllm.Scheduler.Steady.{active, waits, only, IsSteady, Quiet, unchanged}

-- What a preemption leaves.
pub record Preempted (t : Step) (e : Entry) (x : ℕ → ℕ) (result : Option Step) : Type 0 where
  pub step : Step
  pub returns : result ≡ some step
  pub steady : IsSteady step x
  pub quiet : Quiet t step
  -- `e` stands once more in the waiting queue, and every other sequence as often as before.
  pub waits_again :
      (j : ℕ) → times j step.scheduler.waiting ≡ to_ℕ (e.seq_id == j) + times j t.scheduler.waiting
  pub stored : Sequence
  pub there : Dict.get e.seq_id step.scheduler.store ≡ some stored
  pub no_blocks : stored.block_table ≡ []
  pub nothing_cached : stored.num_cached_tokens ≡ 0
  pub nothing_pending : stored.num_pending_tokens ≡ 0
  pub is_waiting : stored.status ≡ waiting
  pub reported : step.output.preempted ≡ t.output.preempted ++ e.seq_id ∷ []
  pub same_running : step.scheduler.running ≡ t.scheduler.running
  pub others :
      (j : ℕ)
      → e.seq_id == j ≡ false
      → Dict.get j step.scheduler.store ≡ Dict.get j t.scheduler.store

-- In a sound state with `e` outside the queues, _preempt returns: `e` stands once more in the waiting
-- queue, with the status of a waiting sequence, no block, nothing cached and nothing pending, and is
-- listed as preempted; the state is sound without it outside the queues. The running sequences, the
-- budget, the rows and all other sequences stay, those in the waiting queue included.
pub preempt-Preempted :
    (t : Step) (e : Entry) (x : ℕ → ℕ)
    → IsSteady t (λ id. only e id + x id)
    → Preempted t e x (preempt t e)
unfolding preempt preempted_seq
preempt-Preempted t e x v =
    let σ = t.scheduler in
    let k = v.known e.seq_id (ground arith) in
    let s = k.sequence in
    let (m', returns, r) =
      deallocate-Released σ.block_manager (rest_of e.seq_id s σ.store) (preempted_seq s)
        (focus e.seq_id s σ.store k.there v.blocks) in
    let s' : Sequence = record (preempted_seq s) {
      num_cached_tokens = 0;
      num_published_blocks = 0;
      block_table = [];
    } in
    let step : Step = record t {
      scheduler = record σ {
        store = Dict.put e.seq_id s' σ.store;
        block_manager = m';
        waiting = Policy.requeue σ.config.policy e σ.waiting;
      };
      output = record t.output { preempted = t.output.preempted ++ e.seq_id ∷ [] };
    } in
    let w =
      given_back v m' e.seq_id s s' k.there r refl
        (IsHashed-same _ s s' k.hashed (refl, refl, refl, refl, refl)) refl (λ h. (refl, refl)) in
    record {
      step = step;
      returns = simp (k.there, returns);
      steady =
          queued _ _ (waits step) (active step x) e.seq_id s' w
            (λ id. omega (arith, times-requeue id σ.config.policy e σ.waiting))
            (λ id other. ground (arith, times-requeue id σ.config.policy e σ.waiting))
            (get_self e.seq_id s' σ.store) (refl, refl, refl);
      quiet = unchanged t;
      waits_again = λ j. times-requeue j σ.config.policy e σ.waiting;
      stored = s';
      there = get_self e.seq_id s' σ.store;
      no_blocks = refl;
      nothing_cached = refl;
      nothing_pending = refl;
      is_waiting = refl;
      reported = refl;
      same_running = refl;
      others = λ j h. get_other e.seq_id j s' σ.store h;
    }

abbrev pub dropped : Scheduler → ℕ → ℕ → Sequence → String → Scheduler
dropped σ now id s reason = record σ {
  store = Dict.put id (drop_pending (finish s reason now)) σ.store;
  seqs = Names.without s.request_id σ.seqs;
}

-- A live sequence can be dropped, and the queues of the outcome are those without it.
pub drop_lem :
    (σ : Scheduler) (now id : ℕ) (s : Sequence) (reason : String) (w a w' a' : ℕ → ℕ)
    → IsSound σ.block_manager σ.store σ.seqs w a
    → Dict.get id σ.store ≡ some s
    → 0 < w id + a id
    → ((j : ℕ) → (w' j ≤ w j) × (a' j ≤ a j))
    → w' id + a' id ≡ 0
    → (drop σ now id s reason ≡ some (dropped σ now id s reason))
      × IsSound σ.block_manager
          (dropped σ now id s reason).store
          (dropped σ now id s reason).seqs
          w'
          a'
drop_lem σ now id s reason w a w' a' v there live fewer gone =
    let (hashed, named) = known_at id s v live there in
    let v1 =
      rewritten v id s (drop_pending (finish s reason now)) there
        (unfold drop_pending finish in refl)
        (unfold drop_pending finish in IsHashed-same _ s _ hashed (refl, refl, refl, refl, refl))
        (unfold drop_pending finish in refl)
        (λ h. unfold drop_pending finish in (refl, (v.idle id s h there).1)) in
    (
      unfold drop in simp (Names.has-get s.request_id id σ.seqs named),
      forgotten w' a' id s.request_id
          (requeued w a w' a' v1 (λ j. omega (arith, (fewer j).0, (fewer j).1))
            (λ j t h g. v1.idle j t (omega (arith, (fewer j).0)) g))
          gone named,
    )
