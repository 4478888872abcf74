-- ===== src/Metrics/Totals.antt =====
-- The counters agree with each other and with the histograms.
use lean_vllm.Prelude.{
  ℕ, zero, suc, ◌+◌, ◌-◌, ◌≡◌, refl, ap, sym, str_eq, ◌++◌, ◌∙◌, inl, inr, String, Option, none,
  some, List, [], ◌∷◌, arith, ◌==◌, leb, if◌then◌else◌, length, Bool-cases, >>=-eq-some, subst,
}
use mathlib.Core.List.{Perm, perm_middle}
use mathlib.Core.List.Perm
use mathlib.Core.Option.{some-injective}
use lean_vllm.Prelude.Dict
use lean_vllm.Prelude.Names
use lean_vllm.Deltas.{RequestOutput}
use lean_vllm.Scheduler.{LaunchedRow}
use lean_vllm.Scheduler.State.{Scheduler, SchedulerOutput, is_empty}
use lean_vllm.Metrics.{
  RequestMetrics, Metrics, count_of, addends_of, inc_seconds, inc_label, inc_position,
  inc_positions, reason_label, record_values, record_finished, record_run, is_graph, record_outputs,
  record_step, record_row, record_spec_decoding,
}

abbrev pub sum : List ℕ → ℕ
sum [] = 0
sum (n ∷ ns) = n + sum ns

abbrev pub sum_items {ℓ} : {K : Type ℓ} → List (K × ℕ) → ℕ
sum_items [] = 0
sum_items ((k, n) ∷ d) = n + sum_items d

-- What was added to a labelled counter of seconds.
abbrev pub all_addends : List (String × List ℕ) → List ℕ
all_addends [] = []
all_addends ((k, addends) ∷ d) = addends ++ all_addends d

all_addends-put :
    (k : String) (n : ℕ) (d : List (String × List ℕ)) (before : List ℕ)
    → addends_of (Names.get k d) ≡ before
    → Perm (all_addends (Names.put k (n ∷ before) d)) (n ∷ all_addends d)
unfolding Names.put Names.get
all_addends-put k n [] before h = subst (λ ys. Perm (n ∷ ys ++ []) (n ∷ [])) h (Perm.refl (n ∷ []))
all_addends-put k n ((j, addends) ∷ d) before h = elim (Bool-cases (str_eq j k)) [
  | inl same ↦
      let e : addends ≡ before = simp same at h in
      simp same (
        subst (λ ys. Perm (n ∷ ys ++ all_addends d) (n ∷ addends ++ all_addends d)) e
          (Perm.refl (n ∷ addends ++ all_addends d)))
  | inr other ↦
      let e : addends_of (Names.get k d) ≡ before = simp other at h in
      simp other (
        Perm.trans (Perm.append_left addends (all_addends-put k n d before e))
          (perm_middle addends (all_addends d)))
]

all_addends-inc_seconds :
    (k : String) (n : ℕ) (d : List (String × List ℕ))
    → Perm (all_addends (inc_seconds k n d)) (n ∷ all_addends d)
unfolding inc_seconds
all_addends-inc_seconds k n d = all_addends-put k n d (addends_of (Names.get k d)) refl

sum_items-names_put :
    (k : String) (v : ℕ) (d : List (String × ℕ))
    → sum_items (Names.put k v d) + count_of (Names.get k d) ≡ sum_items d + v
unfolding Names.put Names.get
sum_items-names_put k v [] = omega arith
sum_items-names_put k v ((j, m) ∷ d) = ground (arith, sum_items-names_put k v d)

sum_items-inc_label :
    (k : String) (n : ℕ) (d : List (String × ℕ)) → sum_items (inc_label k n d) ≡ sum_items d + n
unfolding inc_label
sum_items-inc_label k n d = omega (arith, sum_items-names_put k (count_of (Names.get k d) + n) d)

sum_items-dict_put :
    (k v : ℕ) (d : List (ℕ × ℕ))
    → sum_items (Dict.put k v d) + count_of (Dict.get k d) ≡ sum_items d + v
unfolding Dict.put Dict.get
sum_items-dict_put k v [] = omega arith
sum_items-dict_put k v ((j, m) ∷ d) = ground (arith, sum_items-dict_put k v d)

sum_items-inc_position : (k : ℕ) (d : List (ℕ × ℕ)) → sum_items (inc_position k d) ≡ sum_items d + 1
unfolding inc_position
sum_items-inc_position k d = omega (arith, sum_items-dict_put k (count_of (Dict.get k d) + 1) d)

sum_items-inc_positions :
    (n : ℕ) (d : List (ℕ × ℕ)) → sum_items (inc_positions n d) ≡ sum_items d + n
unfolding inc_positions
sum_items-inc_positions zero d = omega arith
sum_items-inc_positions (suc n) d =
    omega (arith, sum_items-inc_position n (inc_positions n d), sum_items-inc_positions n d)

-- Every step is counted once as a graph step or under the reason of an eager one and has one
-- duration, which was added to model_busy in the order of the steps, and once more to the time of one
-- kind; tokens and accepted drafts add up over their
-- histograms and positions, and each load has one duration.
pub record IsConsistent (m : Metrics) : Type 0 where
  pub runs : m.steps ≡ m.graph_steps + sum_items m.eager_steps
  pub counted : m.steps ≡ length m.step_duration
  pub timed : m.model_busy ≡ m.step_duration
  pub kinds : Perm (all_addends m.step_seconds) m.model_busy
  pub tokens : m.prefill_tokens + m.decode_tokens ≡ sum m.iteration_tokens
  pub prompts : m.prompt_tokens ≡ sum m.request_prompt_tokens
  pub completions : m.generation_tokens ≡ sum m.request_generation_tokens
  pub accepted : m.spec_accepted_tokens ≡ sum_items m.spec_accepted_per_pos
  pub loads : m.kv_transfers ≡ length m.kv_transfer_time

-- The metrics that no record of a finished request writes.
record_values-IsConsistent :
    (m : Metrics) (r : Option RequestMetrics) → IsConsistent m → IsConsistent (record_values m r)
record_values-IsConsistent m none v = v
record_values-IsConsistent m (some r) v = record {
  runs = v.runs;
  counted = v.counted;
  timed = v.timed;
  kinds = v.kinds;
  tokens = v.tokens;
  prompts = omega (arith, v.prompts);
  completions = omega (arith, v.completions);
  accepted = v.accepted;
  loads = v.loads;
}

pub record_finished-IsConsistent :
    (m : Metrics) (o : RequestOutput) (r : Option RequestMetrics)
    → IsConsistent m
    → IsConsistent (record_finished m o r)
unfolding record_finished
record_finished-IsConsistent m o r v =
    let m1 : Metrics = record m {
      requests_finished = inc_label (reason_label o.finish_reason) 1 m.requests_finished;
    } in
    let v1 : IsConsistent m1 = record {
      runs = v.runs;
      counted = v.counted;
      timed = v.timed;
      kinds = v.kinds;
      tokens = v.tokens;
      prompts = v.prompts;
      completions = v.completions;
      accepted = v.accepted;
      loads = v.loads;
    } in
    record_values-IsConsistent m1 r v1

record_run-IsConsistent :
    (m : Metrics) (o : SchedulerOutput) (duration : ℕ) (kind : String)
    → IsConsistent m
    → IsConsistent (record_run m o duration kind)
unfolding record_run
record_run-IsConsistent m o duration kind v = record {
  runs = elim (Bool-cases (is_graph kind)) [
    | inl graph ↦ simp graph (omega (arith, v.runs))
    | inr eager ↦ simp eager (omega (arith, v.runs, sum_items-inc_label kind 1 m.eager_steps))
  ];
  counted = omega (arith, v.counted);
  timed = ap (◌∷◌ duration) v.timed;
  kinds =
      Perm.trans (all_addends-inc_seconds kind duration m.step_seconds)
        (Perm.cons duration v.kinds);
  tokens = omega (arith, v.tokens);
  prompts = v.prompts;
  completions = v.completions;
  accepted = v.accepted;
  loads = v.loads;
}

record_outputs-IsConsistent :
    (outputs : List (RequestOutput × Option RequestMetrics)) (m : Metrics)
    → IsConsistent m
    → IsConsistent (record_outputs m outputs)
unfolding record_outputs
record_outputs-IsConsistent [] m v = v
record_outputs-IsConsistent ((o, r) ∷ outputs) m v = elim (Bool-cases o.finished) [
  | inl last ↦
      subst (λ b. IsConsistent (record_outputs (if b then record_finished m o r else m) outputs))
        (sym last)
        (record_outputs-IsConsistent outputs (record_finished m o r)
          (record_finished-IsConsistent m o r v))
  | inr more ↦
      subst (λ b. IsConsistent (record_outputs (if b then record_finished m o r else m) outputs))
        (sym more) (record_outputs-IsConsistent outputs m v)
]

after_gauges :
    (m : Metrics) (σ : Scheduler) (o : SchedulerOutput)
    → IsConsistent m
    → IsConsistent (record m {
      preemptions = m.preemptions + length o.preempted;
      prefix_cache_queries = m.prefix_cache_queries + o.num_queried_blocks;
      prefix_cache_hits = m.prefix_cache_hits + o.num_cached_blocks;
      running = length σ.running;
      waiting = length σ.waiting + length σ.recving;
      kv_usage = (length σ.block_manager.used, length σ.block_manager.blocks);
    })
after_gauges m σ o v = record {
  runs = v.runs;
  counted = v.counted;
  timed = v.timed;
  kinds = v.kinds;
  tokens = v.tokens;
  prompts = v.prompts;
  completions = v.completions;
  accepted = v.accepted;
  loads = v.loads;
}

-- A step is recorded into metrics that agree, and they agree again, whatever it scheduled, produced
-- and finished.
pub record_step-IsConsistent :
    (m : Metrics) (σ : Scheduler) (o : SchedulerOutput)
    (outputs : List (RequestOutput × Option RequestMetrics)) (duration : ℕ) (kind : String)
    → IsConsistent m
    → IsConsistent (record_step m σ o outputs duration kind)
unfolding record_step
record_step-IsConsistent m σ o outputs duration kind v =
    let m1 = if is_empty o.scheduled then m else record_run m o duration kind in
    let v1 : IsConsistent m1 = elim (Bool-cases (is_empty o.scheduled)) [
      | inl idle ↦
          subst (λ b. IsConsistent (if b then m else record_run m o duration kind)) (sym idle) v
      | inr ran ↦
          subst (λ b. IsConsistent (if b then m else record_run m o duration kind)) (sym ran)
            (record_run-IsConsistent m o duration kind v)
    ] in
    record_outputs-IsConsistent outputs _ (after_gauges m1 σ o v1)

record_row-IsConsistent :
    (m m' : Metrics) (row : LaunchedRow) (tokens : List ℕ)
    → IsConsistent m
    → record_row m row tokens ≡ some m'
    → IsConsistent m'
unfolding record_row
record_row-IsConsistent m m' row tokens v h = elim (Bool-cases (row.num_draft_tokens == 0)) [
  | inl plain ↦ subst IsConsistent (some-injective _ _ (sym (simp plain) ∙ h)) v
  | inr drafted ↦ elim (Bool-cases (leb 1 (length tokens))) [
    | inr empty ↦ absurd (cc (simp (drafted, empty) at h))
    | inl fits ↦
        let m1 : Metrics = record m {
          spec_drafts = m.spec_drafts + 1;
          spec_draft_tokens = m.spec_draft_tokens + row.num_draft_tokens;
          spec_accepted_tokens = m.spec_accepted_tokens + (length tokens - 1);
          spec_accepted_per_pos = inc_positions (length tokens - 1) m.spec_accepted_per_pos;
        } in
        let v1 : IsConsistent m1 = record {
          runs = v.runs;
          counted = v.counted;
          timed = v.timed;
          kinds = v.kinds;
          tokens = v.tokens;
          prompts = v.prompts;
          completions = v.completions;
          accepted = omega (
            arith,
            v.accepted,
            sum_items-inc_positions (length tokens - 1) m.spec_accepted_per_pos,
          );
          loads = v.loads;
        } in
        let e : record_row m row tokens ≡ some m1 = simp (drafted, fits) in
        subst IsConsistent (some-injective _ _ (sym e ∙ h)) v1
  ]
]

-- Rows and their tokens are recorded into metrics that agree; if the recording returns, they agree
-- again: each accepted draft is counted once in all and once at its position.
pub record_spec_decoding-IsConsistent :
    (rows : List LaunchedRow) (tokens : List (List ℕ)) (m m' : Metrics)
    → IsConsistent m
    → record_spec_decoding m rows tokens ≡ some m'
    → IsConsistent m'
unfolding record_spec_decoding
record_spec_decoding-IsConsistent [] tokens m m' v h = subst IsConsistent (some-injective _ _ h) v
record_spec_decoding-IsConsistent (row ∷ rows) [] m m' v h =
    subst IsConsistent (some-injective _ _ h) v
record_spec_decoding-IsConsistent (row ∷ rows) (first ∷ rest) m m' v h =
    let (m1, one, more) = >>=-eq-some (record_row m row first) _ h in
    record_spec_decoding-IsConsistent rows rest m1 m' (record_row-IsConsistent m m1 row first v one)
      more
