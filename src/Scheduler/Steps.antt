-- ===== src/Scheduler/Steps.antt =====
-- schedule of lean_vllm/engine/scheduler.py: one step's loops. Each loop has fuel; a round of the
-- loops over the running and the waiting sequences takes one from its queue, and so does a round
-- of _make_room, so that one more than the queue's length is enough.
use lean_vllm.Prelude.{
  ℕ, zero, suc, ◌+◌, ◌-◌, ◌*◌, min, Bool, true, false, not, ◌&&◌, ◌||◌, Option, none, some, List,
  [], ◌∷◌, ltb, leb, ◌==◌, if◌then◌else◌, length, take, ◌>>=◌,
}
use lean_vllm.Sequence.{Sequence, num_planned_tokens}
use lean_vllm.BlockManager.{can_allocate, can_append, may_append}
use lean_vllm.Policy.{Entry}
use lean_vllm.Policy
use lean_vllm.Prelude.Dict
use lean_vllm.Scheduler.State.{
  Scheduler, SchedulerOutput, new_output, num_lookahead_tokens, is_empty, fetch, write,
  release_blocks,
}
use lean_vllm.Scheduler.Moves.{
  Step, put_back, preempt, drop_capacity, schedule_seq, never_fits, loads_remotely, admit,
  with_connector_meta,
}

-- _make_room once nothing runs that could give way; the sequence itself does, or waits.
unfoldable pub give_way : Step → ℕ → Entry → Sequence → Option Step
give_way t now e s =
    if not (is_empty t.still_running && is_empty t.output.scheduled)
    then preempt t e
    else if ltb 0 s.num_pending_tokens
        || not (is_empty t.scheduler.recving && is_empty t.scheduler.sending)
    then some (put_back t e)
    else do
      σ ← release_blocks t.scheduler e.seq_id s
      s' ← fetch σ e.seq_id
      drop_capacity (record t { scheduler = σ }) now e.seq_id s'

-- One round's victim leaves the running sequences.
unfoldable pub evict : Step → Option Step
evict t = do
  let σ = t.scheduler
  v ← Policy.victim σ.config.policy σ.running
  running ← Policy.remove v.seq_id σ.running
  preempt (record t { scheduler = record σ { running = running } }) v

-- _make_room, with whether there is room now.
unfoldable pub make_room : ℕ → ℕ → Step → Entry → ℕ → Option (Bool × Step)
make_room zero now t e num_lookahead = none
make_room (suc fuel) now t e num_lookahead = do
  s ← fetch t.scheduler e.seq_id
  if can_append t.scheduler.block_manager s num_lookahead
      then some (true, t)
      else if is_empty t.scheduler.running
      then (do t' ← give_way t now e s; some (false, t'))
      else do t' ← evict t; make_room fuel now t' e num_lookahead

-- The sequence runs in this step.
unfoldable pub run_row : Step → ℕ → Entry → Sequence → Step
run_row t now e s = put_back (schedule_seq t now e.seq_id s) e

-- `del seq.spec_token_ids[drafts_to_keep:]`, for the drafts that the step and the request have
-- tokens for beside the sampled one.
unfoldable pub trim_drafts : ℕ → Sequence → Sequence
trim_drafts budget s =
    let num_left = s.max_tokens - (num_planned_tokens s - s.num_prompt_tokens) in
    record s { spec_token_ids = take (min budget num_left - 1) s.spec_token_ids }

-- A decoding sequence gets the blocks for its next tokens, or gives way.
unfoldable pub serve_decode : Step → ℕ → Entry → Sequence → Option Step
serve_decode t now e s = do
  let s1 = trim_drafts t.budget s
  let num_lookahead = length s1.spec_token_ids + num_lookahead_tokens t.scheduler.config
  let t1 = record t { scheduler = write t.scheduler e.seq_id s1 }
  (room, t2) ← make_room (length t.scheduler.running + 1) now t1 e num_lookahead
  if room
      then (do
        let σ = t2.scheduler
        s' ← fetch σ e.seq_id
        (m, s2) ← may_append σ.block_manager s' num_lookahead
        some (
            run_row
              (record t2 {
                scheduler = record σ { store = Dict.put e.seq_id s2 σ.store; block_manager = m };
              })
              now e s2))
      else some t2

-- The body of the loop over the running sequences.
unfoldable pub serve : Step → ℕ → Entry → Option Step
serve t now e = do
  s ← fetch t.scheduler e.seq_id
  if t.budget == 0 || leb t.scheduler.config.max_num_seqs (length t.output.scheduled)
      then some (put_back t e)
      else if leb s.max_tokens (num_planned_tokens s - s.num_prompt_tokens)
      then some (put_back t e)
      else if s.is_prefill
      then some (run_row t now e s)
      else serve_decode t now e s

-- The loop over the running sequences; they leave `running` one by one.
abbrev pub serve_first : ℕ → Step → (Step → Option Step) → List Entry → Option Step
serve_first now t again [] = some t
serve_first now t again (e ∷ rest) = do
  let σ = t.scheduler
  t' ← serve (record t { scheduler = record σ { running = rest } }) now e
  again t'

unfoldable pub serve_running : ℕ → ℕ → Step → Option Step
serve_running zero now t = none
serve_running (suc fuel) now t =
    serve_first now t (λ t'. serve_running fuel now t') t.scheduler.running

-- The head of the waiting queue can never run.
unfoldable pub refuse : Step → ℕ → Entry → List Entry → Sequence → Option Step
refuse t now e rest s =
    let σ = t.scheduler in
    drop_capacity (record t { scheduler = record σ { waiting = rest } }) now e.seq_id s

abbrev pub has_slot : Step → Bool
has_slot t = ltb (length t.output.scheduled) t.scheduler.config.max_num_seqs

-- One round of the admission loop, with the head `e` of the waiting queue; `none` inside is the
-- `break`.
unfoldable pub admit_next : Step → ℕ → Entry → List Entry → Option (Option Step)
admit_next t now e rest = do
  s ← fetch t.scheduler e.seq_id
  if never_fits t.scheduler s then (do t' ← refuse t now e rest s; some (some t')) else do
    granted ← can_allocate t.scheduler.block_manager s (num_lookahead_tokens t.scheduler.config)
    elim granted [ none ↦ some none | some n ↦ do t' ← admit t now e rest s n; some (some t') ]

-- The admission loop of chunked prefill.
abbrev pub admit_first : ℕ → Step → (Step → Option Step) → List Entry → Option Step
admit_first now t again [] = some t
admit_first now t again (e ∷ rest) =
    if has_slot t && ltb 0 t.budget
    then (do next ← admit_next t now e rest; elim next [ none ↦ some t | some t' ↦ again t' ])
    else some t

unfoldable pub admit_waiting : ℕ → ℕ → Step → Option Step
admit_waiting zero now t = none
admit_waiting (suc fuel) now t =
    admit_first now t (λ t'. admit_waiting fuel now t') t.scheduler.waiting

-- The tokens that a whole prompt takes; one that loads its blocks takes none.
unfoldable pub num_prompt_step_tokens : Scheduler → Sequence → ℕ → ℕ
num_prompt_step_tokens σ s num_cached_blocks =
    if loads_remotely σ s
    then 0
    else s.num_tokens - num_cached_blocks * σ.block_manager.settings.block_size

-- One round of _schedule_whole_prompts.
unfoldable pub admit_whole : Step → ℕ → Entry → List Entry → Option (Option Step)
admit_whole t now e rest = do
  s ← fetch t.scheduler e.seq_id
  if never_fits t.scheduler s then (do t' ← refuse t now e rest s; some (some t')) else do
    granted ← can_allocate t.scheduler.block_manager s (num_lookahead_tokens t.scheduler.config)
    elim granted [
      | none ↦ some none
      | some n ↦
          if ltb t.scheduler.config.max_num_batched_tokens (num_prompt_step_tokens t.scheduler s n)
          then (do t' ← refuse t now e rest s; some (some t'))
          else if ltb t.budget (num_prompt_step_tokens t.scheduler s n)
          then some none
          else do t' ← admit t now e rest s n; some (some t')
    ]

-- The loop of _schedule_whole_prompts.
abbrev pub admit_first_prompt : ℕ → Step → (Step → Option Step) → List Entry → Option Step
admit_first_prompt now t again [] = some t
admit_first_prompt now t again (e ∷ rest) =
    if has_slot t
    then (do next ← admit_whole t now e rest; elim next [ none ↦ some t | some t' ↦ again t' ])
    else some t

unfoldable pub admit_prompts : ℕ → ℕ → Step → Option Step
admit_prompts zero now t = none
admit_prompts (suc fuel) now t =
    admit_first_prompt now t (λ t'. admit_prompts fuel now t') t.scheduler.waiting

unfoldable pub new_step : Scheduler → List ℕ → Step
new_step σ dropped = record {
  scheduler = σ;
  still_running = [];
  budget = σ.config.max_num_batched_tokens;
  output = new_output dropped;
}

-- The running sequences, most urgent first.
unfoldable pub order_running : Scheduler → Scheduler
order_running σ = record σ { running = Policy.by_urgency σ.config.policy σ.running }

-- The step once whole prompts had nothing to run: the running sequences, then, with chunked prefill
-- and no memory pressure, waiting ones.
unfoldable pub schedule_mixed : Scheduler → ℕ → List ℕ → Option (Scheduler × SchedulerOutput)
schedule_mixed σ now dropped = do
  let t0 = new_step (order_running σ) dropped
  t1 ← serve_running (length t0.scheduler.running + 1) now t0
  let σ1 = t1.scheduler
  let t2 = record t1 { scheduler = record σ1 { running = t1.still_running }; still_running = [] }
  t3 ←
      if σ.config.enable_chunked_prefill && is_empty t2.output.preempted
      then admit_waiting (length t2.scheduler.waiting + 1) now t2
      else some t2
  some (with_connector_meta t3.scheduler t3.output)

unfoldable pub schedule : Scheduler → ℕ → Option (Scheduler × SchedulerOutput)
schedule σ now = if σ.config.enable_chunked_prefill then schedule_mixed σ now [] else do
  t ← admit_prompts (length σ.waiting + 1) now (new_step σ [])
  if is_empty t.output.scheduled
      then schedule_mixed t.scheduler now t.output.dropped
      else some (with_connector_meta t.scheduler t.output)
