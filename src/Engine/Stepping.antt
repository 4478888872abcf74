-- ===== src/Engine/Stepping.antt =====
-- The steps of LLMEngine (lean_vllm/engine/llm_engine.py): a launch, the tokens of the last one, and
-- the outputs.
use lean_vllm.Prelude.{
  ℕ, String, Bool, true, false, ◌&&◌, Option, none, some, List, [], ◌∷◌, ◌++◌, map, if◌then◌else◌,
  ◌>>=◌,
}
use lean_vllm.KvTransfer.Nixl.{KvConnectorMetadata}
use lean_vllm.Scheduler.{LaunchedRow}
use lean_vllm.Scheduler.State.{Scheduler, SchedulerOutput, is_empty, has_finished}
use lean_vllm.Scheduler.Steps.{schedule}
use lean_vllm.Scheduler.Updates.{advance, update_from_kv_connector_output}
use lean_vllm.Scheduler.Updates
use lean_vllm.SpecDecode.{split_sampled}
use lean_vllm.Deltas.{RequestOutput}
use lean_vllm.Metrics.{Metrics, record_step, record_kv_transfer, record_spec_decoding}
use lean_vllm.OutputProcessor.{OutputProcessor, Decoded}
use lean_vllm.OutputProcessor
use lean_vllm.Engine.{
  SampledTokens, plain, speculated, InFlight, Engine, EngineOutput, output_of, dropped_output,
  measured, named, fetch_all, unlisted, Tokenizer, ModelRunner,
}

module _ {S : Type 0} {R : Type 0} (tokenizer : Tokenizer S) (model_runner : ModelRunner R)
    (default_name : ℕ → String) (transfer_name : ℕ → String) where
  -- The connector's part of _launch.
  abbrev transfer : Engine S R → Option KvConnectorMetadata → Option (Engine S R)
  transfer e none = some e
  transfer e (some metadata) = do
    (runner, kv) ← model_runner.kv_connector_step e.runner metadata
    σ ←
        update_from_kv_connector_output e.scheduler (map transfer_name kv.finished_sending)
          (map transfer_name kv.finished_recving) (map transfer_name kv.failed_recving)
    some (record e { runner = runner; scheduler = σ; metrics = record_kv_transfer e.metrics kv })

  -- The launch of what is scheduled, if anything.
  abbrev run_scheduled : Engine S R → SchedulerOutput → Option (Engine S R)
  run_scheduled e o = if is_empty o.scheduled then some e else do
    seqs ← fetch_all e.scheduler o.scheduled
    (runner, pending) ← model_runner.run e.runner seqs
    (σ, rows) ← advance e.scheduler o.scheduled
    some (record e {
      runner = runner;
      scheduler = σ;
      in_flight = some (record { output = o; rows = rows; pending = pending });
    })

  -- _launch
  unfoldable pub launch : Engine S R → ℕ → Option (Engine S R × SchedulerOutput)
  launch e now = do
    (σ, o) ← schedule e.scheduler now
    e1 ← transfer (record e { scheduler = σ }) o.kv_connector_metadata
    e2 ← run_scheduled e1 o
    some (e2, o)

  -- The tokens of each row, its drafts, and the metrics of speculation; tokens of the other kind
  -- are a fault.
  abbrev pub unpack :
      Option ℕ
      → Metrics
      → List (ℕ × LaunchedRow)
      → SampledTokens
      → Option (Metrics × List (List ℕ) × Option (List (List (Option ℕ))))
  unpack none m rows (plain tokens) = some (m, map (λ token. token ∷ []) tokens, none)
  unpack none m rows (speculated samples) = none
  unpack (some num) m rows (plain tokens) = none
  unpack (some num) m rows (speculated samples) = do
    let split = split_sampled samples num
    m' ← record_spec_decoding m (map (λ row. row.1) rows) split.0
    some (m', split.0, some split.1)

  -- _reconcile, with the sequences that got tokens
  unfoldable pub reconcile : Engine S R → ℕ → Option InFlight → Option (Engine S R × List ℕ)
  reconcile e now none = some (e, [])
  reconcile e now (some draining) = do
    (m, tokens, drafts) ← unpack e.config.speculative e.metrics draining.rows draining.pending
    (σ, stepped) ← Updates.reconcile e.scheduler now draining.rows tokens drafts
    some (record e { scheduler = σ; metrics = m }, stepped)

  abbrev process :
      Option (OutputProcessor S)
      → List EngineOutput
      → Option (Option (OutputProcessor S) × List (String × RequestOutput))
  process none outputs = some (none, map named outputs)
  process (some p) outputs = do
    (p', unstreamed) ←
        OutputProcessor.process_outputs tokenizer.fresh tokenizer.restarted tokenizer.decode_step p
          (map named outputs)
    some (some p', unstreamed)

  -- The steps' order: with async scheduling the next launch comes first.
  unfoldable pub launch_and_reconcile :
      Engine S R → ℕ → Option (Engine S R × SchedulerOutput × List ℕ)
  launch_and_reconcile e now =
      let e0 = record e { in_flight = none } in
      if e.config.async_scheduling
      then (do
        (e1, o) ← launch e0 now
        (e2, stepped) ← reconcile e1 now e.in_flight
        some (e2, o, stepped))
      else (do
        (e1, stepped) ← reconcile e0 now e.in_flight
        (e2, o) ← launch e1 now
        some (e2, o, stepped))

  -- The outputs of a step's sequences, then of those dropped without tokens.
  unfoldable pub step_outputs : Scheduler → List ℕ → List ℕ → Option (List EngineOutput)
  step_outputs σ stepped dropped = do
    seqs ← fetch_all σ stepped
    gone ← fetch_all σ (unlisted stepped dropped)
    some (map output_of seqs ++ map dropped_output gone)

  -- step, with its outputs and its counts of prefill and decode tokens
  unfoldable pub step :
      Engine S R → ℕ → ℕ → Option (Engine S R × List (String × RequestOutput) × ℕ × ℕ)
  step e now duration = do
    (e1, o, stepped) ← launch_and_reconcile e now
    outputs ← step_outputs e1.scheduler stepped o.dropped
    let m =
        record_step e1.metrics e1.scheduler o (map measured outputs) duration
          (model_runner.step_kind e1.runner)
    (p, unstreamed) ← process e1.output_processor outputs
    some (
      record e1 { metrics = m; output_processor = p },
      unstreamed,
      o.num_prefill_tokens,
      o.num_decode_tokens,
    )

  abbrev absent : Option InFlight → Bool
  absent none = true
  absent (some x) = false

  -- is_finished
  unfoldable pub is_idle : Engine S R → Bool
  is_idle e = absent e.in_flight && has_finished e.scheduler
