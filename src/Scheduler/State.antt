-- ===== src/Scheduler/State.antt =====
-- The Scheduler object of lean_vllm/engine/scheduler.py and the operations that its steps are made
-- of. The sequences are objects that several containers share: `store` has them by seq_id, and
-- the containers hold ids, or entries with the numbers that order a sequence. The clock is read
-- once in each call, as `now`.
use lean_vllm.Prelude.{
  ℕ, ◌-◌, String, Bool, true, false, not, ◌&&◌, ◌||◌, Option, none, some, List, [], ◌∷◌,
  if◌then◌else◌, assert, ◌>>=◌, ◌>>◌,
}
use lean_vllm.Prelude.Dict
use lean_vllm.Prelude.Names
use lean_vllm.Sequence.{Sequence, SequenceStatus, drop_pending}
use lean_vllm.BlockManager.{BlockManager, deallocate}
use lean_vllm.Policy.{SchedulingPolicy, Entry, entry_of}
use lean_vllm.Policy
use lean_vllm.KvTransfer.Nixl.{NixlConnectorScheduler, KvConnectorMetadata, request_finished}
use lean_vllm.Scheduler.{finish}

-- What the constructor takes from Config; `eos` is `none` for a tokenizer without one.
pub record SchedulerConfig : Type 0 where
  pub max_num_seqs : ℕ
  pub max_num_batched_tokens : ℕ
  pub eos : Option ℕ
  pub enable_chunked_prefill : Bool
  pub long_prefill_token_threshold : ℕ
  pub num_speculative_tokens : ℕ
  pub policy : SchedulingPolicy

pub record Scheduler : Type 0 where
  pub config : SchedulerConfig
  pub store : List (ℕ × Sequence)
  pub block_manager : BlockManager
  pub waiting : List Entry
  pub running : List Entry
  pub seqs : List (String × ℕ)
  pub connector : Option NixlConnectorScheduler
  pub recving : List (String × ℕ)
  pub sending : List (String × ℕ)

pub record SchedulerOutput : Type 0 where
  pub scheduled : List ℕ
  pub preempted : List ℕ
  pub dropped : List ℕ
  pub num_prefill_tokens : ℕ
  pub num_decode_tokens : ℕ
  pub num_queried_blocks : ℕ
  pub num_cached_blocks : ℕ
  pub kv_connector_metadata : Option KvConnectorMetadata

unfoldable pub new_output : List ℕ → SchedulerOutput
new_output dropped = record {
  scheduled = [];
  preempted = [];
  dropped = dropped;
  num_prefill_tokens = 0;
  num_decode_tokens = 0;
  num_queried_blocks = 0;
  num_cached_blocks = 0;
  kv_connector_metadata = none;
}

unfoldable pub num_lookahead_tokens : SchedulerConfig → ℕ
num_lookahead_tokens c = c.num_speculative_tokens - 1

abbrev pub is_empty {ℓ} : {A : Type ℓ} → List A → Bool
is_empty [] = true
is_empty (x ∷ xs) = false

-- Scheduler.is_finished
unfoldable pub has_finished : Scheduler → Bool
has_finished σ =
    is_empty σ.waiting && is_empty σ.running && is_empty σ.recving && is_empty σ.sending

abbrev pub fetch : Scheduler → ℕ → Option Sequence
fetch σ id = Dict.get id σ.store

abbrev pub write : Scheduler → ℕ → Sequence → Scheduler
write σ id s = record σ { store = Dict.put id s σ.store }

-- `none` is DuplicateRequestId.
unfoldable pub add : Scheduler → Sequence → Option Scheduler
add σ s = do
  assert (
      not (
        Names.has s.request_id σ.seqs
        || Names.has s.request_id σ.recving
        || Names.has s.request_id σ.sending))
  some (record σ {
    store = Dict.put s.seq_id s σ.store;
    seqs = Names.put s.request_id s.seq_id σ.seqs;
    waiting = Policy.add σ.config.policy (entry_of s) σ.waiting;
  })

-- The block manager takes back the blocks of a sequence.
unfoldable pub release_blocks : Scheduler → ℕ → Sequence → Option Scheduler
release_blocks σ id s = do
  (m, s') ← deallocate σ.block_manager s
  some (record σ { store = Dict.put id s' σ.store; block_manager = m })

-- _free
unfoldable pub free : Scheduler → ℕ → Sequence → Option Scheduler
free σ id s = elim σ.connector [
  | none ↦ release_blocks σ id s
  | some c ↦
      let asked = request_finished c s in
      let s' = record s { kv_transfer_result = asked.0.1 } in
      if asked.0.0
      then some (record σ {
        store = Dict.put id s' σ.store;
        connector = some asked.1;
        sending = Names.put s.request_id id σ.sending;
      })
      else release_blocks (record σ { connector = some asked.1 }) id s'
]

-- _drop, less the output that a caller appends to; `none` is the KeyError of an unknown request.
unfoldable pub drop : Scheduler → ℕ → ℕ → Sequence → String → Option Scheduler
drop σ now id s reason = do
  assert (Names.has s.request_id σ.seqs)
  some (record σ {
    store = Dict.put id (drop_pending (finish s reason now)) σ.store;
    seqs = Names.without s.request_id σ.seqs;
  })

-- The queue of a status loses the sequence: the waiting one of a waiting sequence, or `running`.
unfoldable pub unqueue : Scheduler → ℕ → SequenceStatus → Option Scheduler
unqueue σ id SequenceStatus.waiting = do
  waiting ← Policy.remove id σ.waiting
  some (record σ { waiting = waiting })
unqueue σ id other = do running ← Policy.remove id σ.running; some (record σ { running = running })

abbrev pub is_loading : SequenceStatus → Bool
is_loading SequenceStatus.waiting_for_remote_kvs = true
is_loading other = false

-- abort of the live sequence of the request, which `seqs` has lost.
unfoldable pub abort_live : Scheduler → ℕ → ℕ → Sequence → String → Option Scheduler
abort_live σ now id s reason =
    if is_loading s.status then some (write σ id (finish s reason now)) else do
      σ' ← unqueue σ id s.status
      let s' = finish (drop_pending s) reason now
      free (write σ' id s') id s'

-- abort with what `seqs` has for the request.
abbrev pub abort_found : Scheduler → ℕ → String → String → Option ℕ → Option (Scheduler × Bool)
abort_found σ now request_id reason none = some (σ, false)
abort_found σ now request_id reason (some id) = do
  s ← fetch σ id
  σ' ← abort_live (record σ { seqs = Names.without request_id σ.seqs }) now id s reason
  some (σ', true)

unfoldable pub abort : Scheduler → ℕ → String → String → Option (Scheduler × Bool)
abort σ now request_id reason = abort_found σ now request_id reason (Names.get request_id σ.seqs)
