-- ===== src/Tests/Requests.antt =====
-- Requests of blocks of two tokens, with a small block hash.
use lean_vllm.Prelude.{
  ℕ, ◌+◌, ◌*◌, ◌≡◌, refl, true, false, Option, none, some, List, [], ◌∷◌, arith,
}
use lean_vllm.Prelude.Int.{pos}
use lean_vllm.Sequence.{
  Settings, Sequence, SamplingParams, SequenceStatus, commit_token, append_token,
  num_completion_tokens,
}
use lean_vllm.Sequence
use lean_vllm.Sequence.Commit.{IsHashed, commit_token_lem}

abbrev pub mix : List ℕ → ℕ → ℕ
mix [] n = n
mix (x ∷ xs) n = mix xs (n * 10 + x)

abbrev pub hash_digits : List ℕ → Option ℕ → ℕ
hash_digits tokens none = mix tokens 1
hash_digits tokens (some n) = mix tokens n

abbrev pub pairs : Settings
pairs = record { block_size = 2; enable_prefix_caching = true; hash_block = hash_digits }

abbrev pub sampling : SamplingParams
sampling = record {
  max_tokens = 4;
  ignore_eos = false;
  stop_token_ids = [];
  skip_special_tokens = true;
  priority = pos 0;
  kv_transfer_params = none;
}

-- A request for five tokens, as create leaves it.
abbrev pub five : Sequence
five = record {
  seq_id = 7;
  request_id = "req-7";
  status = SequenceStatus.waiting;
  token_ids = 1 ∷ 2 ∷ 3 ∷ 4 ∷ 5 ∷ [];
  last_token = 5;
  num_tokens = 5;
  num_prompt_tokens = 5;
  num_cached_tokens = 0;
  num_pending_tokens = 0;
  num_published_blocks = 0;
  num_scheduled_tokens = 0;
  num_new_tokens = 0;
  spec_token_ids = [];
  is_prefill = true;
  block_table = [];
  block_hashes = 112 ∷ 11234 ∷ [];
  params = sampling;
  kv_transfer_result = none;
  finish_reason = none;
  num_preemptions = 0;
  arrival_time = 30;
  first_scheduled_time = none;
  first_token_time = none;
  finish_time = none;
}

pub five-IsHashed : IsHashed pairs five
five-IsHashed = record { counted = refl; prompt = omega arith; last = refl; hashes = refl }

abbrev reserved : Sequence
reserved = record five { num_pending_tokens = 1 }

commit_token_example :
    (s' : Sequence) × (commit_token pairs reserved 6 ≡ some s')
    × IsHashed pairs s'
    × (s'.token_ids ≡ 1 ∷ 2 ∷ 3 ∷ 4 ∷ 5 ∷ 6 ∷ [])
    × (s'.num_pending_tokens + 1 ≡ 1)
    × (s'.block_table ≡ [])
    × (s'.num_cached_tokens ≡ 0)
commit_token_example =
    commit_token_lem pairs (omega arith) reserved 6
      (record { counted = refl; prompt = omega arith; last = refl; hashes = refl }) (omega arith)

abbrev prompt_a : List ℕ
prompt_a = 1 ∷ 2 ∷ 3 ∷ 4 ∷ 5 ∷ []

-- Its first two blocks are those of prompt_a.
abbrev prompt_b : List ℕ
prompt_b = 1 ∷ 2 ∷ 3 ∷ 4 ∷ 9 ∷ 9 ∷ []

abbrev six : Sequence
six = record five {
  seq_id = 8;
  request_id = "req-8";
  token_ids = prompt_b;
  last_token = 9;
  num_tokens = 6;
  num_prompt_tokens = 6;
  block_hashes = 112 ∷ 11234 ∷ 1123499 ∷ [];
}
