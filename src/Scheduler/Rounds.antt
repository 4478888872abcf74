-- ===== src/Scheduler/Rounds.antt =====
-- schedule as a whole, for a scheduler without a KV connector.
use lean_vllm.Prelude.{
  ℕ, ◌+◌, ◌≤◌, ◌≡◌, refl, ap, ◌∙◌, inl, inr, ◌&&◌, Option, none, some, List, [], arith, length,
  Bool-cases,
}
use lean_vllm.Policy.Members.{times, times-by_urgency}
use lean_vllm.Scheduler.State.{Scheduler, SchedulerOutput, new_output, is_empty}
use lean_vllm.Scheduler.Moves.{Step, with_connector_meta}
use lean_vllm.Scheduler.Steps.{new_step, order_running, schedule_mixed, schedule}
use lean_vllm.Scheduler.Sound.{IsSound, requeued}
use lean_vllm.Scheduler.Steady.{active, waits, nobody, IsSteady, IsWithin}
use lean_vllm.Scheduler.Serving.{serve_running-Served}
use lean_vllm.Scheduler.Waiting.{admit_waiting-Admission, admit_prompts-Admission}

-- Between two steps: the block manager counts the block tables of all sequences, no sequence stands
-- in the queues twice, those that stand there are live and hashed, and those that wait hold nothing.
abbrev pub IsReady : Scheduler → Type 0
IsReady σ =
    IsSound σ.block_manager σ.store σ.seqs (λ id. times id σ.waiting) (λ id. times id σ.running)

-- What a step schedules stays within both budgets.
abbrev pub InBudget : Scheduler → SchedulerOutput → Type 0
InBudget σ o =
    (o.num_prefill_tokens + o.num_decode_tokens ≤ σ.config.max_num_batched_tokens)
    × (length o.scheduled ≤ σ.config.max_num_seqs)

pub record Scheduled (σ : Scheduler) (result : Option (Scheduler × SchedulerOutput)) : Type 0 where
  pub next : Scheduler
  pub output : SchedulerOutput
  pub returns : result ≡ some (next, output)
  pub ready : IsReady next
  pub in_budget : InBudget σ output
  pub same_config : next.config ≡ σ.config
  pub no_connector : next.connector ≡ none

-- The end of a step.
finished-Scheduled :
    (σ : Scheduler) (t : Step)
    → t.still_running ≡ []
    → t.scheduler.connector ≡ none
    → t.scheduler.config ≡ σ.config
    → IsSteady t nobody
    → IsWithin t
    → Scheduled σ (some (with_connector_meta t.scheduler t.output))
unfolding with_connector_meta
finished-Scheduled σ t nothing_left no_connector same v w = record {
  next = t.scheduler;
  output = t.output;
  returns = simp no_connector;
  ready =
      requeued _ _ (waits t) (λ id. times id t.scheduler.running) v (λ id. omega arith)
        (λ id s h g. v.idle id s h g);
  in_budget = (
    omega (arith, w.0, ap (λ c. c.max_num_batched_tokens) same),
    omega (arith, w.1, ap (λ c. c.max_num_seqs) same),
  );
  same_config = same;
  no_connector = no_connector;
}

Scheduled-as :
    {σ : Scheduler} {result result' : Option (Scheduler × SchedulerOutput)}
    → result' ≡ result
    → Scheduled σ result
    → Scheduled σ result'
Scheduled-as same r = record {
  next = r.next;
  output = r.output;
  returns = same ∙ r.returns;
  ready = r.ready;
  in_budget = r.in_budget;
  same_config = r.same_config;
  no_connector = r.no_connector;
}

schedule_mixed-Scheduled :
    (σ : Scheduler) (now : ℕ) (dropped : List ℕ)
    → σ.connector ≡ none
    → IsReady σ
    → Scheduled σ (schedule_mixed σ now dropped)
unfolding schedule_mixed order_running new_step new_output
schedule_mixed-Scheduled σ now dropped no_connector v =
    let t0 = new_step (order_running σ) dropped in
    let v0 : IsSteady t0 nobody =
      requeued _ _ (waits t0) (active t0 nobody) v
        (λ id. omega (arith, times-by_urgency id σ.config.policy σ.running))
        (λ id s h g. v.idle id s h g) in
    let (r, idle) =
      serve_running-Served (length t0.scheduler.running + 1) now t0 (omega arith) v0 in
    let t1 = r.step in
    let σ1 = t1.scheduler in
    let t2 : Step = record t1 {
      scheduler = record σ1 { running = t1.still_running };
      still_running = [];
    } in
    let v2 : IsSteady t2 nobody =
      requeued _ _ (waits t2) (active t2 nobody) r.steady (λ id. omega arith)
        (λ id s h g. r.steady.idle id s h g) in
    let w2 : IsWithin t2 = r.within (omega arith, omega arith) in
    let no_connector2 = r.same_connector ∙ no_connector in
    elim (Bool-cases (σ.config.enable_chunked_prefill && is_empty t2.output.preempted)) [
      | inl admits ↦
          let a =
            admit_waiting-Admission (length t2.scheduler.waiting + 1) now t2 (omega arith)
              no_connector2 v2 in
          Scheduled-as (simp (r.returns, admits, a.returns)) (
            finished-Scheduled σ a.step a.same_still (a.same_connector ∙ no_connector2)
              (a.same_config ∙ r.same_config) a.steady (a.within w2))
      | inr keeps ↦
          Scheduled-as (simp (r.returns, keeps))
            (finished-Scheduled σ t2 refl no_connector2 r.same_config v2 w2)
    ]

-- A step of a ready scheduler without a connector. It returns: every loop ends, and no assertion,
-- lookup or removal in it fails. The scheduler is ready again, and what is scheduled stays within
-- max_num_batched_tokens and max_num_seqs.
pub schedule-Scheduled :
    (σ : Scheduler) (now : ℕ) → σ.connector ≡ none → IsReady σ → Scheduled σ (schedule σ now)
unfolding schedule new_step new_output
schedule-Scheduled σ now no_connector v = elim (Bool-cases σ.config.enable_chunked_prefill) [
  | inl chunked ↦ Scheduled-as (simp chunked) (schedule_mixed-Scheduled σ now [] no_connector v)
  | inr whole ↦
      let t0 = new_step σ [] in
      let v0 : IsSteady t0 nobody =
        requeued _ _ (waits t0) (active t0 nobody) v (λ id. omega arith)
          (λ id s h g. v.idle id s h g) in
      let a = admit_prompts-Admission (length σ.waiting + 1) now t0 (omega arith) no_connector v0 in
      let c = a.same_connector ∙ no_connector in
      elim (Bool-cases (is_empty a.step.output.scheduled)) [
        | inl nothing ↦
            let ready : IsReady a.step.scheduler =
              requeued _ _ _ _ a.steady (λ id. omega arith) (λ id s h g. a.steady.idle id s h g) in
            let m = schedule_mixed-Scheduled a.step.scheduler now a.step.output.dropped c ready in
            record {
              next = m.next;
              output = m.output;
              returns = simp (whole, a.returns, nothing, m.returns);
              ready = m.ready;
              in_budget = (
                omega (arith, m.in_budget.0, ap (λ k. k.max_num_batched_tokens) a.same_config),
                omega (arith, m.in_budget.1, ap (λ k. k.max_num_seqs) a.same_config),
              );
              same_config = m.same_config ∙ a.same_config;
              no_connector = m.no_connector;
            }
        | inr something ↦ Scheduled-as (simp (whole, a.returns, something)) (
            finished-Scheduled σ a.step a.same_still c a.same_config a.steady
              (a.within (omega arith, omega arith)))
      ]
]
