-- ===== src/Tests/Counts.antt =====
-- A step and a row of drafts, counted from nothing.
use mathlib.Core.List.Perm
use lean_vllm.Prelude.{refl, none, some, true, [], ◌∷◌}
use lean_vllm.Deltas.{RequestOutput}
use lean_vllm.Scheduler.{LaunchedRow}
use lean_vllm.Scheduler.State.{SchedulerOutput, new_output}
use lean_vllm.Metrics.{Metrics, record_step}
use lean_vllm.Metrics.Totals.{IsConsistent, record_step-IsConsistent}
use lean_vllm.Tests.Schedulers.{one_request}

abbrev pub nothing_counted : Metrics
nothing_counted = record {
  running = 0;
  waiting = 0;
  kv_usage = (0, 0);
  requests_received = 0;
  requests_aborted = 0;
  requests_finished = [];
  preemptions = 0;
  prompt_tokens = 0;
  generation_tokens = 0;
  prefill_tokens = 0;
  decode_tokens = 0;
  prefix_cache_queries = 0;
  prefix_cache_hits = 0;
  steps = 0;
  graph_steps = 0;
  eager_steps = [];
  step_seconds = [];
  model_busy = [];
  ttft_values = [];
  tpot_values = [];
  queue_time_values = [];
  e2e_values = [];
  request_prompt_tokens = [];
  request_generation_tokens = [];
  step_duration = [];
  iteration_tokens = [];
  kv_transfers = 0;
  kv_transfer_failures = 0;
  kv_transfer_expired = 0;
  kv_transfer_time = [];
  kv_transfer_bytes = [];
  spec_drafts = 0;
  spec_draft_tokens = 0;
  spec_accepted_tokens = 0;
  spec_accepted_per_pos = [];
}

nothing-IsConsistent : IsConsistent nothing_counted
nothing-IsConsistent = record {
  runs = refl;
  counted = refl;
  timed = refl;
  kinds = Perm.refl [];
  tokens = refl;
  prompts = refl;
  completions = refl;
  accepted = refl;
  loads = refl;
}

abbrev prefill_step : SchedulerOutput
prefill_step = record (new_output []) { scheduled = 7 ∷ []; num_prefill_tokens = 4 }

abbrev ended : RequestOutput
ended = record {
  token_ids = 5 ∷ [];
  text = [];
  finished = true;
  finish_reason = some "stop";
  kv_transfer_params = none;
}

record_step_example :
    IsConsistent
      (record_step nothing_counted one_request prefill_step ((ended, none) ∷ []) 9 "graph")
record_step_example =
    record_step-IsConsistent nothing_counted one_request prefill_step ((ended, none) ∷ []) 9 "graph"
      nothing-IsConsistent

abbrev verified : LaunchedRow
verified = record { num_preemptions = 0; num_draft_tokens = 2 }

abbrev accepted_one : Metrics
accepted_one = record nothing_counted {
  spec_drafts = 1;
  spec_draft_tokens = 2;
  spec_accepted_tokens = 1;
  spec_accepted_per_pos = (0, 1) ∷ [];
}
