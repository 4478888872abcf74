-- ===== src/Sequence/Pickled.antt =====
-- __getstate__ and __setstate__ of lean_vllm/engine/sequence.py: what a worker process gets of a
-- sequence. The attributes that __setstate__ leaves unset are those of any given sequence, and the
-- sampling settings of the state are left out.
use lean_vllm.Prelude.{ℕ, Bool, Option, some, List, [], ◌∷◌, if◌then◌else◌, get_last?, ◌>>=◌}
use lean_vllm.Sequence.{Sequence}

-- `last_state`: the tokens of a prefilling sequence, the last one of a decoding one.
pub data LastState : Type 0 where
  tokens : List ℕ → LastState
  token : ℕ → LastState

pub record Pickled : Type 0 where
  pub seq_id : ℕ
  pub num_tokens : ℕ
  pub num_prompt_tokens : ℕ
  pub num_cached_tokens : ℕ
  pub num_scheduled_tokens : ℕ
  pub num_pending_tokens : ℕ
  pub is_prefill : Bool
  pub block_table : List ℕ
  pub spec_token_ids : List (Option ℕ)
  pub last_state : LastState

-- __getstate__
unfoldable pub getstate : Sequence → Pickled
getstate s = record {
  seq_id = s.seq_id;
  num_tokens = s.num_tokens;
  num_prompt_tokens = s.num_prompt_tokens;
  num_cached_tokens = s.num_cached_tokens;
  num_scheduled_tokens = s.num_scheduled_tokens;
  num_pending_tokens = s.num_pending_tokens;
  is_prefill = s.is_prefill;
  block_table = s.block_table;
  spec_token_ids = s.spec_token_ids;
  last_state = if s.is_prefill then tokens s.token_ids else token s.last_token;
}

-- The tokens and the last of them; `none` is the IndexError of an empty list.
abbrev pub restored_tokens : LastState → Option (List ℕ × ℕ)
restored_tokens (token last) = some ([], last)
restored_tokens (tokens token_ids) = do last ← get_last? token_ids; some (token_ids, last)

abbrev pub with_state : Sequence → Pickled → List ℕ → ℕ → Sequence
with_state unset p token_ids last_token = record unset {
  seq_id = p.seq_id;
  num_tokens = p.num_tokens;
  num_prompt_tokens = p.num_prompt_tokens;
  num_cached_tokens = p.num_cached_tokens;
  num_scheduled_tokens = p.num_scheduled_tokens;
  num_pending_tokens = p.num_pending_tokens;
  is_prefill = p.is_prefill;
  block_table = p.block_table;
  spec_token_ids = p.spec_token_ids;
  token_ids = token_ids;
  last_token = last_token;
}

-- __setstate__
unfoldable pub setstate : Sequence → Pickled → Option Sequence
setstate unset p = do
  (token_ids, last_token) ← restored_tokens p.last_state
  some (with_state unset p token_ids last_token)

-- The sequences of a call, unpickled.
unfoldable pub receive : Sequence → List Sequence → Option (List Sequence)
receive unset [] = some []
receive unset (s ∷ seqs) = do
  s' ← setstate unset (getstate s)
  rest ← receive unset seqs
  some (s' ∷ rest)
