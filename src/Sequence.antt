-- ===== src/Sequence.antt =====
-- The per-request state of lean_vllm/engine/sequence.py. A method returns the changed record, and
-- `none` where it raises. The sampling settings that only the model runner reads (temperature,
-- top_p, top_k) are left out, and perf_counter() is an argument.
pub mod Slices
pub mod Pickled
pub mod Chain
pub mod Collisions
pub mod Commit
use lean_vllm.Prelude.{
  ℕ, zero, suc, ◌+◌, ◌-◌, ◌*◌, ◌/◌, String, Bool, true, false, Option, none, some, List, [], ◌∷◌,
  ◌++◌, ltb, if◌then◌else◌, length, take, drop, get_last?, assert, ◌>>=◌, ◌>>◌,
}
use lean_vllm.Prelude.Int.{ℤ}

-- The settings that every Sequence shares. `hash_block` is the entry of HASH_ALGOS that Config
-- names, a hash of hashlib or xxhash; its prefix is `none` where the source passes -1.
pub record Settings : Type 0 where
  pub block_size : ℕ
  pub enable_prefix_caching : Bool
  pub hash_block : List ℕ → Option ℕ → ℕ

pub data SequenceStatus : Type 0 where
  waiting waiting_for_remote_kvs running finished : SequenceStatus

-- Where a decode instance pulls a remote prefill from.
pub record Remote : Type 0 where
  pub remote_block_ids : List ℕ
  pub remote_request_id : String
  pub remote_engine_id : String
  pub remote_host : String
  pub remote_port : ℕ
  pub tp_size : ℕ

-- The keys of a kv_transfer_params object that the engine reads; a missing flag is false.
pub record KvTransferParams : Type 0 where
  pub do_remote_prefill : Bool
  pub do_remote_decode : Bool
  pub remote : Option Remote

pub record SamplingParams : Type 0 where
  pub max_tokens : ℕ
  pub ignore_eos : Bool
  pub stop_token_ids : List ℕ
  pub skip_special_tokens : Bool
  pub priority : ℤ
  pub kv_transfer_params : Option KvTransferParams

pub record Sequence : Type 0 where
  pub seq_id : ℕ
  pub request_id : String
  pub status : SequenceStatus
  pub token_ids : List ℕ
  pub last_token : ℕ
  pub num_tokens : ℕ
  pub num_prompt_tokens : ℕ
  pub num_cached_tokens : ℕ
  pub num_pending_tokens : ℕ
  pub num_published_blocks : ℕ
  pub num_scheduled_tokens : ℕ
  pub num_new_tokens : ℕ
  -- `none` is PLACEHOLDER_TOKEN_ID
  pub spec_token_ids : List (Option ℕ)
  pub is_prefill : Bool
  pub block_table : List ℕ
  pub block_hashes : List ℕ
  pub params : SamplingParams
  pub open params use *
  pub kv_transfer_result : Option KvTransferParams
  pub finish_reason : Option String
  pub num_preemptions : ℕ
  pub arrival_time : ℕ
  pub first_scheduled_time : Option ℕ
  pub first_token_time : Option ℕ
  pub finish_time : Option ℕ

-- The attributes that Sequence.__init__ sets before it hashes; `seq_id` and `now` are what the
-- counter and the clock return.
unfoldable pub new_request : ℕ → ℕ → List ℕ → ℕ → SamplingParams → String → Sequence
new_request seq_id now token_ids last_token params request_id = record {
  seq_id = seq_id;
  request_id = request_id;
  status = SequenceStatus.waiting;
  token_ids = token_ids;
  last_token = last_token;
  num_tokens = length token_ids;
  num_prompt_tokens = length token_ids;
  num_cached_tokens = 0;
  num_pending_tokens = 0;
  num_published_blocks = 0;
  num_scheduled_tokens = 0;
  num_new_tokens = 0;
  spec_token_ids = [];
  is_prefill = true;
  block_table = [];
  block_hashes = [];
  params = params;
  kv_transfer_result = none;
  finish_reason = none;
  num_preemptions = 0;
  arrival_time = now;
  first_scheduled_time = none;
  first_token_time = none;
  finish_time = none;
}

unfoldable pub is_finished : Sequence → Bool
is_finished s = elim s.status [ SequenceStatus.finished ↦ true | _ ↦ false ]

unfoldable pub num_completion_tokens : Sequence → ℕ
num_completion_tokens s = s.num_tokens - s.num_prompt_tokens

abbrev pub num_planned_tokens : Sequence → ℕ
num_planned_tokens s = s.num_tokens + s.num_pending_tokens

unfoldable pub prompt_token_ids : Sequence → List ℕ
prompt_token_ids s = take s.num_prompt_tokens s.token_ids

unfoldable pub completion_token_ids : Sequence → List ℕ
completion_token_ids s = drop s.num_prompt_tokens s.token_ids

-- The i-th slice of `size` tokens.
abbrev pub slice : ℕ → ℕ → List ℕ → List ℕ
slice size i tokens = take size (drop (i * size) tokens)

unfoldable pub reserve_token : Sequence → ℕ → Sequence
reserve_token s num_tokens = record s { num_pending_tokens = s.num_pending_tokens + num_tokens }

unfoldable pub drop_pending : Sequence → Sequence
drop_pending s = record s { num_pending_tokens = 0 }

module _ (c : Settings) where
  unfoldable pub num_blocks : Sequence → ℕ
  num_blocks s = (num_planned_tokens s + c.block_size - 1) / c.block_size

  unfoldable pub block : Sequence → ℕ → Option (List ℕ)
  block s i = do assert (ltb i (num_blocks s)); some (slice c.block_size i s.token_ids)

  -- The loop of _extend_block_hashes, from `i`, over the blocks left to hash.
  unfoldable pub hash_rest : ℕ → ℕ → Sequence → Option Sequence
  hash_rest zero i s = some s
  hash_rest (suc left) i s = do
    tokens ← block s i
    let prefix = get_last? s.block_hashes
    hash_rest left (i + 1)
        (record s { block_hashes = s.block_hashes ++ c.hash_block tokens prefix ∷ [] })

  unfoldable pub extend_block_hashes : Sequence → Option Sequence
  extend_block_hashes s =
      if c.enable_prefix_caching
      then hash_rest (s.num_tokens / c.block_size - length s.block_hashes) (length s.block_hashes) s
      else some s

  -- Sequence.__init__. An empty list of tokens has no last one.
  unfoldable pub create : ℕ → ℕ → List ℕ → SamplingParams → String → Option Sequence
  create seq_id now token_ids params request_id = do
    last ← get_last? token_ids
    extend_block_hashes (new_request seq_id now token_ids last params request_id)

  unfoldable pub commit_token : Sequence → ℕ → Option Sequence
  commit_token s token_id = do
    assert (ltb 0 s.num_pending_tokens)
    extend_block_hashes (record s {
      token_ids = s.token_ids ++ token_id ∷ [];
      last_token = token_id;
      num_tokens = s.num_tokens + 1;
      num_pending_tokens = s.num_pending_tokens - 1;
    })

  unfoldable pub append_token : Sequence → ℕ → Option Sequence
  append_token s token_id = commit_token (reserve_token s 1) token_id
