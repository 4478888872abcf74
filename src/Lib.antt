-- ===== src/Lib.antt =====
-- lean-vllm serves language models: requests wait in a queue, a scheduler gives the ones it admits
-- blocks of a paged KV cache, a model runner computes their next tokens, and an output processor
-- turns tokens into text that it streams to clients. This library models the host-side state that
-- decides which blocks a request owns, which cached blocks it may reuse, in which order requests run,
-- and which text leaves the server.
--
--   * Sequence (lean_vllm/engine/sequence.py, lean_vllm/sampling_params.py): the state of a request,
--     token reservation and commit, and the chained hashes of its full blocks. Sequence.Chain is the
--     hash chain as a function of the tokens, Sequence.Collisions says what equal hashes mean.
--   * BlockManager (lean_vllm/engine/block_manager.py): blocks with reference counts, the free queue,
--     and the prefix cache, with can_allocate, allocate, can_append, may_append, deallocate and
--     hash_blocks. BlockManager.Queue is FreeKVCacheBlockQueue. BlockManager.Valid relates a manager
--     to how often the tables of the live requests name each block; the other children follow the
--     operations: Fresh (new blocks), Cached and Sharing (shared ones), Lookup and Admission
--     (can_allocate and allocate), Growth (may_append), Release (deallocate), Publish (hash_blocks).
--   * Policy (lean_vllm/engine/policy.py): the two waiting queues, the choice of a victim, and the
--     order of urgency. Heap is about the queue of the Priority policy, Priority about what it serves and
--     whom it preempts.
--   * Scheduler (lean_vllm/engine/scheduler.py): what a step does to one request. schedule_tokens is
--     what _schedule writes of it, advance_row and reconcile_row are the loop bodies of advance and
--     reconcile; Launch is about the former, Commits and Slots about the latter. Scheduler.State is
--     the Scheduler object, with add, abort, _drop and _free; Scheduler.Moves has _preempt, _schedule
--     and _admit, and Scheduler.Steps is schedule with its loops. Sound is the invariant of the store
--     and the queues, Changes keeps it when one sequence changes, and Steady is that of a step in
--     progress; Preempt, Room, Rows, Serving, Admitting, Waiting and Rounds follow schedule from
--     _preempt to the whole, and Requests is about add and abort. Scheduler.Updates has advance,
--     reconcile and update_from_kv_connector_output; Departure is about a request that ends.
--   * OutputProcessor (lean_vllm/engine/output_processor.py, lean_vllm/utils/detokenizer.py): the
--     text of outputs and the streams that carry them; Texts is about an output on its way to a
--     stream, Readers about what a reader gets.
--   * KvTransfer.Nixl (NixlConnectorScheduler of lean_vllm/kv_transfer/nixl_connector.py): what the
--     scheduler asks its connector; KvTransfer.Handover joins a prefill and a decode instance, and
--     KvTransfer.Heads is head_shares, the heads that a rank reads from each rank of the other.
--   * StopChecker (lean_vllm/entrypoints/stop_checker.py): stop strings over streamed text.
--   * SpecDecode (split_sampled of lean_vllm/spec_decode/config.py): the rows of a speculative step.
--   * KvTransfer (KVOutputAggregator of lean_vllm/kv_transfer/base.py): the ranks' reports of finished
--     transfers; KvTransfer.Reports is about their counting.
--   * Deltas (_deltas and _collect of lean_vllm/entrypoints/api_server.py, lean_vllm/engine/output.py):
--     what a request sends its client; Deltas.Streams relates it to the generated text.
--   * Metrics (lean_vllm/engine/metrics.py, lean_vllm/engine/output.py): the counters and histograms;
--     Metrics.Totals says how they agree.
--   * Validation (validate_request of lean_vllm/engine/llm_engine.py, check_kv_transfer_params of
--     lean_vllm/kv_transfer/base.py): which requests are refused; Validation.Verdicts says which pass.
--   * Engine (lean_vllm/engine/llm_engine.py): LLMEngine, which puts the scheduler, the metrics and the
--     output processor together; Engine.Stepping is step with _launch and _reconcile, Engine.Generate
--     is generate. Engine.Core (lean_vllm/engine/core.py) is the loop of the engine's process with its
--     messages and replies, and Engine.Core.Replies is about the adds among them.
--   * EngineClient (AsyncMPClient of lean_vllm/engine/core_client.py): the futures that wait for the
--     engine core. Futures, Kept and Entries are about settling them, Lifetime is the event loop's steps,
--     with the futures that lose their entry to another add of their request id.
--     Frontend (AsyncLLM of lean_vllm/engine/async_llm.py) has the streams above the client.
--   * ModelRunner (lean_vllm/engine/model_runner.py): the query length of decode attention, the sizes
--     of CUDA graphs and the kind of a step. ModelRunner.Batch and ModelRunner.Layout are
--     prepare_batch and _move_back, ModelRunner.Arrays the numpy calls that they make. Ragged says
--     what the index arithmetic comes to; Moves and Rejection are about rejected drafts, Agreement and
--     Ranks about the ranks that get the sequences by pickle (Sequence.Pickled), Sizes about graphs.
--   * KvTransfer.Worker and KvTransfer.Consumer (NixlConnectorWorker of
--     lean_vllm/kv_transfer/nixl_connector.py): the half that holds blocks until they are read, and the
--     half that reads them, with its loads in KvTransfer.Consumer.Loading. Dues, Holding and Deadlines
--     are about what is held, and KvTransfer.Consumer.Untouched shows that reads leave it alone.
--   * Contexts (lean_vllm/utils/context.py): the split of a batch into decode rows and others; Splits is
--     about its rows. InputBuffers (lean_vllm/engine/input_buffers.py): buffers that grow, with Reuse
--     about what they hold. Sharding (lean_vllm/layers/linear.py, lean_vllm/layers/embed_head.py): the
--     shards of a weight, which Shards puts together again. Proxy
--     (lean_vllm/entrypoints/disagg_proxy.py): the proxy of prefill and decode servers; Turns is about
--     their order.
--   * Prelude: Boolean tests, lists, options, block arithmetic, counting and dicts over native
--     numbers. Tests: concrete requests, caches, queues and streams.
--
-- A method is a function from the object's record, and from the records that it writes, to the changed
-- ones; it returns `none` where the source raises, fails an assertion, or indexes out of range. The
-- scheduler passes a Sequence to the BlockManager, which writes its block table and two counters, so
-- allocate, may_append, deallocate and hash_blocks return both. An OrderedDict, a dict and a set are
-- lists; the heap of the Priority policy is the ordered list of its tuples, which
-- differs from heapq's array in the order of iteration alone. A counter of seconds is the list of what
-- was added to it, as sums of floats depend on their order. Python's integers are unbounded, so
-- that no width is needed. Token ids are integers where requests are validated and natural numbers
-- from there on. The queues share Sequence objects: the scheduler's store has them by
-- seq_id and the queues hold ids. Loops over ranges and lists are structural recursion. Three loops
-- of schedule and the one of _make_room take fuel, one more than the length of the queue that they
-- shorten by one each round, and end before it is used up.
--
-- Asynchronous code is the functions between its awaits, in any order that the event loop may take them:
-- the client's theorems are about each sequence of steps from its start. The transfer thread of a worker
-- and the engine's calls take turns under a lock, and so are steps too. The loop over the steps of
-- generate takes the readings of the clock as its fuel, those of the engine core the inputs that it
-- polls.
--
-- The hash functions (hashlib, xxhash), the clock, the counter of sequence ids, the step of the
-- tokenizers package's DecodeStream, the calls of the model runner and of NIXL's agent, the rendering of
-- metrics, what pydantic and Python say of a request's kv_transfer_params and what a send on a socket
-- does are arguments. The theorems on whole steps are for a
-- scheduler without a connector. Not modelled are the tensor code of torch, Triton and CUDA (the layers'
-- arithmetic, models, attention backends, the sampler and the drafter), processes, sockets and HTTP, the command
-- line and the configuration, and of a NIXL worker the registration of its caches and its answers to
-- handshakes.
pub mod Prelude
pub mod Sequence
pub mod BlockManager
pub mod Policy
pub mod Scheduler
pub mod SpecDecode
pub mod KvTransfer
pub mod StopChecker
pub mod Deltas
pub mod Engine
pub mod EngineClient
pub mod Frontend
pub mod ModelRunner
pub mod Contexts
pub mod Sharding
pub mod InputBuffers
pub mod Proxy
pub mod OutputProcessor
pub mod Metrics
pub mod Validation
pub mod Tests
