-- ===== src/Scheduler/Moves.antt =====
-- The operations that the steps of lean_vllm/engine/scheduler.py are made of: _preempt, _drop,
-- _schedule and _admit, on the state of schedule's loops.
use lean_vllm.Prelude.{
  ℕ, ◌+◌, ◌-◌, Bool, true, false, Option, none, some, List, [], ◌∷◌, ◌++◌, ltb, ◌==◌, if◌then◌else◌,
  length, assert, ◌>>=◌, ◌>>◌,
}
use lean_vllm.Prelude.Dict
use lean_vllm.Prelude.Names
use lean_vllm.Sequence.{Sequence, SequenceStatus, num_blocks}
use lean_vllm.BlockManager.{needed_blocks, allocate, deallocate}
use lean_vllm.Policy.{SchedulingPolicy, Entry, entry_of}
use lean_vllm.Policy
use lean_vllm.KvTransfer.Nixl.{
  NixlConnectorScheduler, get_num_new_matched_tokens, update_state_after_alloc,
  build_connector_meta, wants_prefill,
}
use lean_vllm.Scheduler.{schedule_tokens}
use lean_vllm.Scheduler.State.{Scheduler, SchedulerOutput, drop, fetch, num_lookahead_tokens, write}

-- The state of schedule's loops.
pub record Step : Type 0 where
  pub scheduler : Scheduler
  pub still_running : List Entry
  pub budget : ℕ
  pub output : SchedulerOutput

abbrev pub put_back : Step → Entry → Step
put_back t e = record t { still_running = t.still_running ++ e ∷ [] }

-- The sequence as it goes back to the waiting queue.
unfoldable pub preempted_seq : Sequence → Sequence
preempted_seq s = record s {
  status = SequenceStatus.waiting;
  is_prefill = true;
  num_preemptions = s.num_preemptions + 1;
  num_pending_tokens = 0;
  spec_token_ids = [];
}

-- _preempt
unfoldable pub preempt : Step → Entry → Option Step
preempt t e = do
  s ← fetch t.scheduler e.seq_id
  (m, s') ← deallocate t.scheduler.block_manager (preempted_seq s)
  let σ = t.scheduler
  some (record t {
    scheduler = record σ {
      store = Dict.put e.seq_id s' σ.store;
      block_manager = m;
      waiting = Policy.requeue σ.config.policy e σ.waiting;
    };
    output = record t.output { preempted = t.output.preempted ++ e.seq_id ∷ [] };
  })

-- _drop of a sequence that no cache could hold.
unfoldable pub drop_capacity : Step → ℕ → ℕ → Sequence → Option Step
drop_capacity t now id s = do
  σ ← drop t.scheduler now id s "capacity"
  some (record t {
    scheduler = σ;
    output = record t.output { dropped = t.output.dropped ++ id ∷ [] };
  })

-- _schedule
unfoldable pub schedule_seq : Step → ℕ → ℕ → Sequence → Step
schedule_seq t now id s =
    let c = t.scheduler.config in
    let done =
      schedule_tokens c.enable_chunked_prefill c.long_prefill_token_threshold now s t.budget in
    record t {
      scheduler = write t.scheduler id done.0;
      budget = t.budget - done.1;
      output = record t.output {
        scheduled = t.output.scheduled ++ id ∷ [];
        num_prefill_tokens =
            if s.is_prefill
            then t.output.num_prefill_tokens + done.1
            else t.output.num_prefill_tokens;
        num_decode_tokens =
            if s.is_prefill
            then t.output.num_decode_tokens
            else t.output.num_decode_tokens + done.1;
      };
    }

-- _never_fits
unfoldable pub never_fits : Scheduler → Sequence → Bool
never_fits σ s =
    ltb (length σ.block_manager.blocks)
      (needed_blocks σ.block_manager s (num_lookahead_tokens σ.config))

-- _loads_remotely
unfoldable pub loads_remotely : Scheduler → Sequence → Bool
loads_remotely σ s = elim σ.connector [ none ↦ false | some c ↦ wants_prefill s ]

-- The end of _admit: the sequence runs.
unfoldable pub admit_running : Step → ℕ → Entry → Sequence → Step
admit_running t now e s =
    let t' = schedule_seq t now e.seq_id (record s { status = SequenceStatus.running }) in
    let σ = t'.scheduler in record t' { scheduler = record σ { running = σ.running ++ e ∷ [] } }

-- _admit once the blocks are allocated: the connector may load some of them.
unfoldable pub admit_allocated : Step → ℕ → Entry → Sequence → Option Step
admit_allocated t now e s = elim t.scheduler.connector [
  | none ↦ some (admit_running t now e s)
  | some c ↦ do
    ((num_external_tokens, load_async), s') ← get_num_new_matched_tokens c s s.num_cached_tokens
    if num_external_tokens == 0 then some (admit_running t now e s') else do
      assert load_async
      (c', s2) ← update_state_after_alloc c s'
      let σ = t.scheduler
      some (record t {
        scheduler = record σ {
          store =
              Dict.put e.seq_id (record s2 { status = SequenceStatus.waiting_for_remote_kvs })
                σ.store;
          connector = some c';
          recving = Names.put s2.request_id e.seq_id σ.recving;
        };
      })
]

-- _admit of the head `e` of the waiting queue; `rest` is the queue without it.
unfoldable pub admit : Step → ℕ → Entry → List Entry → Sequence → ℕ → Option Step
admit t now e rest s num_cached_blocks = do
  let σ = t.scheduler
  (m, s') ← allocate σ.block_manager s num_cached_blocks (num_lookahead_tokens σ.config)
  let o = t.output
  admit_allocated
      (record t {
        scheduler = record σ { block_manager = m; waiting = rest };
        output = record o {
          num_queried_blocks = o.num_queried_blocks + num_blocks m.settings s';
          num_cached_blocks = o.num_cached_blocks + num_cached_blocks;
        };
      })
      now e s'

abbrev pub add_meta :
    Scheduler → SchedulerOutput → Option NixlConnectorScheduler → Scheduler × SchedulerOutput
add_meta σ o none = (σ, o)
add_meta σ o (some c) =
    let built = build_connector_meta c in
    (record σ { connector = some built.1 }, record o { kv_connector_metadata = some built.0 })

-- _with_connector_meta
unfoldable pub with_connector_meta : Scheduler → SchedulerOutput → Scheduler × SchedulerOutput
with_connector_meta σ o = add_meta σ o σ.connector
