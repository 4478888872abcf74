-- ===== src/Metrics.antt =====
-- lean_vllm/engine/metrics.py, with the RequestMetrics of lean_vllm/engine/output.py. A counter is
-- its total, a labelled counter the totals of its labels, a histogram the values observed, newest
-- first; times are readings of a clock that never goes back. A counter of seconds is what was added
-- to it, newest first, as floats do not add up alike in every order. The Prometheus client renders
-- them.
pub mod Totals
use lean_vllm.Prelude.{
  ℕ, zero, suc, ◌+◌, ◌-◌, ◌*◌, String, str_eq, Bool, true, false, ◌||◌, Option, none, some, List,
  [], ◌∷◌, ◌==◌, ltb, if◌then◌else◌, length, leb, assert, ◌>>=◌, ◌>>◌,
}
use lean_vllm.Prelude.Dict
use lean_vllm.Prelude.Names
use lean_vllm.Deltas.{RequestOutput}
use lean_vllm.Sequence.{Sequence, num_completion_tokens}
use lean_vllm.KvTransfer.{KvTransferStats, KvConnectorOutput}
use lean_vllm.Scheduler.{LaunchedRow}
use lean_vllm.Scheduler.State.{Scheduler, SchedulerOutput, is_empty}

pub record RequestMetrics : Type 0 where
  pub arrival_time : ℕ
  pub num_prompt_tokens : ℕ
  pub num_completion_tokens : ℕ
  pub num_preemptions : ℕ
  pub first_scheduled_time : Option ℕ
  pub first_token_time : Option ℕ
  pub finish_time : Option ℕ

-- Sequence.metrics
unfoldable pub metrics_of : Sequence → RequestMetrics
metrics_of s = record {
  arrival_time = s.arrival_time;
  num_prompt_tokens = s.num_prompt_tokens;
  num_completion_tokens = num_completion_tokens s;
  num_preemptions = s.num_preemptions;
  first_scheduled_time = s.first_scheduled_time;
  first_token_time = s.first_token_time;
  finish_time = s.finish_time;
}

abbrev pub since : ℕ → Option ℕ → Option ℕ
since start none = none
since start (some time) = some (time - start)

unfoldable pub queue_time : RequestMetrics → Option ℕ
queue_time r = since r.arrival_time r.first_scheduled_time

unfoldable pub ttft : RequestMetrics → Option ℕ
ttft r = since r.arrival_time r.first_token_time

unfoldable pub e2e : RequestMetrics → Option ℕ
e2e r = since r.arrival_time r.finish_time

abbrev pub per_token : ℕ → Option ℕ → Option (ℕ × ℕ)
per_token num_tokens none = none
per_token num_tokens (some time) = if ltb num_tokens 2 then none else some (time, num_tokens - 1)

abbrev pub decode_time : Option ℕ → Option ℕ → Option ℕ
decode_time none finish_time = none
decode_time (some first_token_time) finish_time = since first_token_time finish_time

-- A mean, as a time and the number of tokens that it is divided by.
unfoldable pub tpot : RequestMetrics → Option (ℕ × ℕ)
tpot r = per_token r.num_completion_tokens (decode_time r.first_token_time r.finish_time)

pub record Metrics : Type 0 where
  pub running : ℕ
  pub waiting : ℕ
  pub kv_usage : ℕ × ℕ
  pub requests_received : ℕ
  pub requests_aborted : ℕ
  pub requests_finished : List (String × ℕ)
  pub preemptions : ℕ
  pub prompt_tokens : ℕ
  pub generation_tokens : ℕ
  pub prefill_tokens : ℕ
  pub decode_tokens : ℕ
  pub prefix_cache_queries : ℕ
  pub prefix_cache_hits : ℕ
  pub steps : ℕ
  pub graph_steps : ℕ
  pub eager_steps : List (String × ℕ)
  pub step_seconds : List (String × List ℕ)
  pub model_busy : List ℕ
  pub ttft_values : List ℕ
  pub tpot_values : List (ℕ × ℕ)
  pub queue_time_values : List ℕ
  pub e2e_values : List ℕ
  pub request_prompt_tokens : List ℕ
  pub request_generation_tokens : List ℕ
  pub step_duration : List ℕ
  pub iteration_tokens : List ℕ
  pub kv_transfers : ℕ
  pub kv_transfer_failures : ℕ
  pub kv_transfer_expired : ℕ
  pub kv_transfer_time : List ℕ
  pub kv_transfer_bytes : List ℕ
  pub spec_drafts : ℕ
  pub spec_draft_tokens : ℕ
  pub spec_accepted_tokens : ℕ
  pub spec_accepted_per_pos : List (ℕ × ℕ)

abbrev pub count_of : Option ℕ → ℕ
count_of none = 0
count_of (some n) = n

-- `labels(label).inc(n)`
unfoldable pub inc_label : String → ℕ → List (String × ℕ) → List (String × ℕ)
inc_label label n d = Names.put label (count_of (Names.get label d) + n) d

abbrev pub addends_of : Option (List ℕ) → List ℕ
addends_of none = []
addends_of (some addends) = addends

-- The same for a labelled counter of seconds.
unfoldable pub inc_seconds : String → ℕ → List (String × List ℕ) → List (String × List ℕ)
inc_seconds label seconds d = Names.put label (seconds ∷ addends_of (Names.get label d)) d

unfoldable pub inc_position : ℕ → List (ℕ × ℕ) → List (ℕ × ℕ)
inc_position position d = Dict.put position (count_of (Dict.get position d) + 1) d

abbrev pub observe {ℓ} : {A : Type ℓ} → Option A → List A → List A
observe none values = values
observe (some value) values = value ∷ values

-- The label of a reason, Python's str of it.
abbrev pub reason_label : Option String → String
reason_label none = "None"
reason_label (some reason) = reason

abbrev pub record_values : Metrics → Option RequestMetrics → Metrics
record_values m none = m
record_values m (some r) = record m {
  prompt_tokens = m.prompt_tokens + r.num_prompt_tokens;
  generation_tokens = m.generation_tokens + r.num_completion_tokens;
  request_prompt_tokens = r.num_prompt_tokens ∷ m.request_prompt_tokens;
  request_generation_tokens = r.num_completion_tokens ∷ m.request_generation_tokens;
  ttft_values = observe (ttft r) m.ttft_values;
  tpot_values = observe (tpot r) m.tpot_values;
  queue_time_values = observe (queue_time r) m.queue_time_values;
  e2e_values = observe (e2e r) m.e2e_values;
}

-- _record_finished of an output with its metrics.
unfoldable pub record_finished : Metrics → RequestOutput → Option RequestMetrics → Metrics
record_finished m o r =
    record_values
      (record m {
        requests_finished = inc_label (reason_label o.finish_reason) 1 m.requests_finished;
      })
      r

unfoldable pub record_received : Metrics → Metrics
record_received m = record m { requests_received = m.requests_received + 1 }

abbrev pub is_abort : Option String → Bool
is_abort none = false
is_abort (some reason) = str_eq reason "abort"

unfoldable pub record_aborted : Metrics → RequestOutput → Option RequestMetrics → Metrics
record_aborted m o r =
    if is_abort o.finish_reason
    then record m { requests_aborted = m.requests_aborted + 1 }
    else record_finished m o r

abbrev pub is_graph : String → Bool
is_graph kind = str_eq kind "graph" || str_eq kind "piecewise"

-- A step that ran the model.
unfoldable pub record_run : Metrics → SchedulerOutput → ℕ → String → Metrics
record_run m o duration kind = record m {
  steps = m.steps + 1;
  graph_steps = if is_graph kind then m.graph_steps + 1 else m.graph_steps;
  eager_steps = if is_graph kind then m.eager_steps else inc_label kind 1 m.eager_steps;
  step_seconds = inc_seconds kind duration m.step_seconds;
  model_busy = duration ∷ m.model_busy;
  step_duration = duration ∷ m.step_duration;
  iteration_tokens = (o.num_prefill_tokens + o.num_decode_tokens) ∷ m.iteration_tokens;
  prefill_tokens = m.prefill_tokens + o.num_prefill_tokens;
  decode_tokens = m.decode_tokens + o.num_decode_tokens;
}

unfoldable pub record_outputs : Metrics → List (RequestOutput × Option RequestMetrics) → Metrics
record_outputs m [] = m
record_outputs m ((o, r) ∷ outputs) =
    record_outputs (if o.finished then record_finished m o r else m) outputs

unfoldable pub record_step :
    Metrics
    → Scheduler
    → SchedulerOutput
    → List (RequestOutput × Option RequestMetrics)
    → ℕ
    → String
    → Metrics
record_step m σ o outputs duration kind =
    let m1 = if is_empty o.scheduled then m else record_run m o duration kind in
    record_outputs
      (record m1 {
        preemptions = m1.preemptions + length o.preempted;
        prefix_cache_queries = m1.prefix_cache_queries + o.num_queried_blocks;
        prefix_cache_hits = m1.prefix_cache_hits + o.num_cached_blocks;
        running = length σ.running;
        waiting = length σ.waiting + length σ.recving;
        kv_usage = (length σ.block_manager.used, length σ.block_manager.blocks);
      })
      outputs

unfoldable pub record_loads : Metrics → List (ℕ × KvTransferStats) → Metrics
record_loads m [] = m
record_loads m ((id, stats) ∷ rest) =
    record_loads
      (record m {
        kv_transfers = m.kv_transfers + 1;
        kv_transfer_time = stats.seconds ∷ m.kv_transfer_time;
        kv_transfer_bytes = stats.num_bytes ∷ m.kv_transfer_bytes;
      })
      rest

unfoldable pub record_kv_transfer : Metrics → KvConnectorOutput → Metrics
record_kv_transfer m o =
    let m1 = record_loads m o.recv_stats in
    record m1 {
      kv_transfer_failures = m1.kv_transfer_failures + length o.failed_recving;
      kv_transfer_expired = m1.kv_transfer_expired + length o.expired_sending;
    }

-- The positions below the number of accepted drafts.
unfoldable pub inc_positions : ℕ → List (ℕ × ℕ) → List (ℕ × ℕ)
inc_positions zero d = d
inc_positions (suc n) d = inc_position n (inc_positions n d)

-- One row and its tokens; the client raises for a row without tokens, whose count would be -1.
unfoldable pub record_row : Metrics → LaunchedRow → List ℕ → Option Metrics
record_row m row tokens = if row.num_draft_tokens == 0 then some m else do
  assert (leb 1 (length tokens))
  let num_accepted = length tokens - 1
  some (record m {
    spec_drafts = m.spec_drafts + 1;
    spec_draft_tokens = m.spec_draft_tokens + row.num_draft_tokens;
    spec_accepted_tokens = m.spec_accepted_tokens + num_accepted;
    spec_accepted_per_pos = inc_positions num_accepted m.spec_accepted_per_pos;
  })

-- `zip` ends with the shorter list.
unfoldable pub record_spec_decoding : Metrics → List LaunchedRow → List (List ℕ) → Option Metrics
record_spec_decoding m [] tokens = some m
record_spec_decoding m (row ∷ rows) [] = some m
record_spec_decoding m (row ∷ rows) (tokens ∷ rest) = do
  m' ← record_row m row tokens
  record_spec_decoding m' rows rest
