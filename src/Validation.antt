-- ===== src/Validation.antt =====
-- validate_request of lean_vllm/engine/llm_engine.py with check_kv_transfer_params of
-- lean_vllm/kv_transfer/base.py: why a request is refused. Token ids are integers, as the API takes
-- any; what Python and pydantic say of a kv_transfer_params value is a parameter.
pub mod Verdicts
use lean_vllm.Prelude.{
  ℕ, ◌+◌, Bool, true, false, not, ◌&&◌, Option, none, some, List, [], ◌∷◌, ltb, leb, if◌then◌else◌,
  length, String,
}
use lean_vllm.Prelude.Int.{ℤ, pos, ltb_ℤ}
use lean_vllm.Sequence.{Remote}

pub data Role : Type 0 where
  kv_producer kv_consumer kv_both : Role

abbrev pub is_producer : Role → Bool
is_producer kv_producer = true
is_producer kv_consumer = false
is_producer kv_both = true

abbrev pub is_consumer : Role → Bool
is_consumer kv_producer = false
is_consumer kv_consumer = true
is_consumer kv_both = true

pub data Problem : Type 0 where
  empty_prompt prompt_too_long no_room not_an_object no_kv_transfer not_producer not_consumer
        no_remote :
      Problem
  bad_token : ℤ → Problem

-- What is said of a value given as kv_transfer_params: whether it is a dict, its `params.get(key)` as
-- a truth value, and _RemotePrefill.model_validate, which is `none` for a ValidationError.
pub record ParamsReader (V : Type 0) : Type 0 where
  pub is_dict : V → Bool
  pub flag : V → String → Bool
  pub model_validate : V → Option Remote

abbrev pub missing : Option Remote → Bool
missing none = true
missing (some remote) = false

unfoldable pub first_bad : ℕ → List ℤ → Option ℤ
first_bad vocab_size [] = none
first_bad vocab_size (token_id ∷ prompt) =
    let rest = first_bad vocab_size prompt in
    if not (ltb_ℤ token_id (pos 0)) && ltb_ℤ token_id (pos vocab_size) then rest else some token_id

module _ {V : Type 0} (reader : ParamsReader V) where
  abbrev pub check_prefill : V → Role → Option Problem
  check_prefill p role =
      if not (reader.flag p "do_remote_prefill")
      then none
      else if not (is_consumer role)
      then some not_consumer
      else if missing (reader.model_validate p)
      then some no_remote
      else none

  abbrev pub check_roles : V → Option Role → Option Problem
  check_roles p none = some no_kv_transfer
  check_roles p (some role) =
      if reader.flag p "do_remote_decode" && not (is_producer role)
      then some not_producer
      else check_prefill p role

  unfoldable pub check_kv_transfer_params : V → Option Role → Option Problem
  check_kv_transfer_params p kv_transfer =
      if reader.is_dict p then check_roles p kv_transfer else some not_an_object

  abbrev pub check_transfer : Option V → Option Role → Option Problem
  check_transfer none kv_transfer = none
  check_transfer (some p) kv_transfer = check_kv_transfer_params p kv_transfer

  abbrev pub check_lengths : ℕ → ℕ → ℕ → Option V → Option Role → Option ℤ → Option Problem
  check_lengths num_tokens max_tokens max_model_len params kv_transfer (some bad) =
      some (bad_token bad)
  check_lengths num_tokens max_tokens max_model_len params kv_transfer none =
      if leb max_model_len num_tokens
      then some prompt_too_long
      else if ltb max_model_len (num_tokens + max_tokens)
      then some no_room
      else check_transfer params kv_transfer

  -- The InvalidRequest, if any.
  unfoldable pub validate_request : List ℤ → ℕ → Option V → ℕ → ℕ → Option Role → Option Problem
  validate_request [] max_tokens params vocab_size max_model_len kv_transfer = some empty_prompt
  validate_request (token_id ∷ prompt) max_tokens params vocab_size max_model_len kv_transfer =
      check_lengths (length (token_id ∷ prompt)) max_tokens max_model_len params kv_transfer
        (first_bad vocab_size (token_id ∷ prompt))
