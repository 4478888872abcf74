-- ===== src/Engine.antt =====
-- LLMEngine of lean_vllm/engine/llm_engine.py: the scheduler, the model runner, the metrics and the
-- output processor put together. A request that is refused is a value; `none` is an exception that
-- nothing here catches. The model runner, the tokenizer and the names of unnamed requests are
-- parameters, the clock's readings arguments. Prompts are of natural numbers here; validate_request
-- refuses all others.
pub mod Stepping
pub mod Generate
pub mod Core
use lean_vllm.Prelude.{
  ℕ, zero, suc, ◌+◌, ◌-◌, String, str_eq, Bool, true, false, ◌&&◌, Option, none, some, List, [],
  ◌∷◌, ◌++◌, map, if◌then◌else◌, length, drop, ◌>>=◌,
}
use lean_vllm.Prelude.Counting.{contains}
use lean_vllm.Prelude.Names
use lean_vllm.Prelude.Int.{pos}
use lean_vllm.Sequence.{Sequence, SamplingParams, KvTransferParams, create, is_finished}
use lean_vllm.KvTransfer.{KvConnectorOutput}
use lean_vllm.KvTransfer.Nixl.{KvConnectorMetadata}
use lean_vllm.Scheduler.{LaunchedRow}
use lean_vllm.Scheduler.State.{
  Scheduler, SchedulerOutput, is_empty, has_finished, fetch, add, abort,
}
use lean_vllm.Scheduler.Steps.{schedule}
use lean_vllm.Scheduler.Updates.{advance, update_from_kv_connector_output}
use lean_vllm.Scheduler.Updates
use lean_vllm.SpecDecode.{split_sampled}
use lean_vllm.Deltas.{RequestOutput}
use lean_vllm.Metrics.{
  Metrics, RequestMetrics, metrics_of, record_received, record_aborted, record_step,
  record_kv_transfer, record_spec_decoding,
}
use lean_vllm.OutputProcessor.{OutputProcessor, Decoded}
use lean_vllm.OutputProcessor
use lean_vllm.Validation.{ParamsReader, Problem, Role, validate_request}

-- What tolist() of a step's tokens gives: a token a row, or, with speculation, rows of tokens and
-- drafts where -1 is `none`.
pub data SampledTokens : Type 0 where
  plain : List ℕ → SampledTokens
  speculated : List (List (Option ℕ)) → SampledTokens

-- The calls of the model runner that the engine makes.
pub record ModelRunner (R : Type 0) : Type 0 where
  pub run : R → List Sequence → Option (R × SampledTokens)
  pub kv_connector_step : R → KvConnectorMetadata → Option (R × KvConnectorOutput)
  pub step_kind : R → String

-- The calls of the tokenizers package; S is a detokenizer with its stream and its
-- skip_special_tokens, which `restarted` gives a fresh stream.
pub record Tokenizer (S : Type 0) : Type 0 where
  pub encode : List ℕ → List ℕ
  pub fresh : List ℕ → Bool → S
  pub restarted : S → S
  pub decode_step : S → ℕ → Decoded S

pub data Prompt : Type 0 where
  text token_ids : List ℕ → Prompt

-- The fields of Config that the engine reads itself.
pub record EngineConfig : Type 0 where
  pub vocab_size : ℕ
  pub max_model_len : ℕ
  pub kv_transfer : Option Role
  pub async_scheduling : Bool
  pub speculative : Option ℕ

-- _InFlight; a launched row stands beside the id of its sequence.
pub record InFlight : Type 0 where
  pub output : SchedulerOutput
  pub rows : List (ℕ × LaunchedRow)
  pub pending : SampledTokens

-- LLMEngine; `next_seq_id` is the counter of Sequence.
pub record Engine (S : Type 0) (R : Type 0) : Type 0 where
  pub config : EngineConfig
  pub next_seq_id : ℕ
  pub runner : R
  pub scheduler : Scheduler
  pub metrics : Metrics
  pub output_processor : Option (OutputProcessor S)
  pub in_flight : Option InFlight

-- The parameters of the requests here are dictionaries already read, with what pydantic made of a
-- remote prefill.
abbrev flag_of : KvTransferParams → String → Bool
flag_of p key = if str_eq key "do_remote_decode" then p.do_remote_decode else p.do_remote_prefill

abbrev as_read : ParamsReader KvTransferParams
as_read = record { is_dict = λ p. true; flag = flag_of; model_validate = λ p. p.remote }

-- An InvalidRequest: of validate_request, or DuplicateRequestId of the scheduler.
pub data Refusal : Type 0 where
  problem : Problem → Refusal
  duplicate : Refusal

pub data Answer : Type 0 where
  accepted : String → Answer
  refused : Refusal → Answer

-- A RequestOutput with its request_id and its metrics.
abbrev pub EngineOutput : Type 0
EngineOutput = String × RequestOutput × Option RequestMetrics

-- `token_ids[-n:]`, which is all of them for 0.
abbrev pub last_tokens : ℕ → List ℕ → List ℕ
last_tokens zero xs = xs
last_tokens (suc n) xs = drop (length xs - suc n) xs

-- _output
unfoldable pub output_of : Sequence → EngineOutput
output_of s = (
  s.request_id,
  record {
    token_ids = last_tokens s.num_new_tokens s.token_ids;
    text = [];
    finished = is_finished s;
    finish_reason = s.finish_reason;
    kv_transfer_params = s.kv_transfer_result;
  },
  if is_finished s then some (metrics_of s) else none,
)

-- _dropped
unfoldable pub dropped_output : Sequence → EngineOutput
dropped_output s = (
  s.request_id,
  record {
    token_ids = [];
    text = [];
    finished = true;
    finish_reason = s.finish_reason;
    kv_transfer_params = none;
  },
  some (metrics_of s),
)

abbrev pub measured : EngineOutput → RequestOutput × Option RequestMetrics
measured o = (o.1, o.2)

abbrev pub named : EngineOutput → String × RequestOutput
named o = (o.0, o.1)

unfoldable pub fetch_all : Scheduler → List ℕ → Option (List Sequence)
fetch_all σ [] = some []
fetch_all σ (id ∷ ids) = do s ← fetch σ id; rest ← fetch_all σ ids; some (s ∷ rest)

-- `[seq for seq in dropped if seq not in stepped]`
unfoldable pub unlisted : List ℕ → List ℕ → List ℕ
unlisted stepped [] = []
unlisted stepped (id ∷ ids) =
    let rest = unlisted stepped ids in if contains id stepped then rest else id ∷ rest

module _ {S : Type 0} {R : Type 0} (tokenizer : Tokenizer S) (model_runner : ModelRunner R)
    (default_name : ℕ → String) (transfer_name : ℕ → String) where
  abbrev encoded : Prompt → List ℕ
  encoded (text t) = tokenizer.encode t
  encoded (token_ids ids) = ids

  abbrev id_or_default : Option String → ℕ → String
  id_or_default none seq_id = default_name seq_id
  id_or_default (some request_id) seq_id = request_id

  abbrev with_request :
      Option (OutputProcessor S) → String → List ℕ → Bool → Option (OutputProcessor S)
  with_request none request_id ids skip = none
  with_request (some p) request_id ids skip = some (
      OutputProcessor.add_request tokenizer.fresh tokenizer.restarted tokenizer.decode_step p
        request_id ids skip none)

  -- The end of add_request, with what scheduler.add gave; a duplicate has used up its seq_id.
  abbrev enter : Engine S R → Sequence → List ℕ → Option Scheduler → Engine S R × Answer
  enter e s ids none = (e, refused duplicate)
  enter e s ids (some σ) = (
    record e {
      scheduler = σ;
      metrics = record_received e.metrics;
      output_processor = with_request e.output_processor s.request_id ids s.skip_special_tokens;
    },
    accepted s.request_id,
  )

  abbrev enter_valid :
      Engine S R
      → ℕ
      → List ℕ
      → SamplingParams
      → Option String
      → Option Problem
      → Option (Engine S R × Answer)
  enter_valid e now ids params request_id (some p) = some (e, refused (problem p))
  enter_valid e now ids params request_id none = do
    let seq_id = e.next_seq_id
    s ←
        create e.scheduler.block_manager.settings seq_id now ids params
          (id_or_default request_id seq_id)
    some (enter (record e { next_seq_id = seq_id + 1 }) s ids (add e.scheduler s))

  unfoldable pub add_request :
      Engine S R → ℕ → Prompt → SamplingParams → Option String → Option (Engine S R × Answer)
  add_request e now prompt params request_id =
      let ids = encoded prompt in
      enter_valid e now ids params request_id (
        validate_request as_read (map pos ids) params.max_tokens params.kv_transfer_params
          e.config.vocab_size e.config.max_model_len e.config.kv_transfer)

  abbrev without_request : Option (OutputProcessor S) → String → Option (OutputProcessor S)
  without_request none request_id = none
  without_request (some p) request_id = some ((OutputProcessor.abort_request p request_id).0)

  -- The end of abort_request, for the sequence that `seqs` had.
  abbrev record_abort : Engine S R → Bool → Option ℕ → Option (Engine S R × Bool)
  record_abort e false id = some (e, false)
  record_abort e true none = none
  record_abort e true (some id) = do
    s ← fetch e.scheduler id
    let o = dropped_output s
    some (record e { metrics = record_aborted e.metrics o.1 o.2 }, true)

  unfoldable pub abort_request : Engine S R → ℕ → String → String → Option (Engine S R × Bool)
  abort_request e now request_id reason = do
    (σ, aborted) ← abort e.scheduler now request_id reason
    record_abort
        (record e {
          scheduler = σ;
          output_processor = without_request e.output_processor request_id;
        })
        aborted (Names.get request_id e.scheduler.seqs)
