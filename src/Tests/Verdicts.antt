-- ===== src/Tests/Verdicts.antt =====
-- A request of three tokens that is to be decoded elsewhere.
use lean_vllm.Prelude.{
  ◌+◌, ◌≤◌, ◌<◌, String, str_eq, ◌≡◌, ◌↔◌, Bool, Option, none, some, true, false, List, [], ◌∷◌,
  length,
}
use lean_vllm.Prelude.Int.{ℤ, pos}
use lean_vllm.Validation.{ParamsReader, kv_both, validate_request}
use lean_vllm.Validation.Verdicts.{InVocabulary, CanServe, validate_request_lem}

abbrev prompt : List ℤ
prompt = pos 5 ∷ pos 6 ∷ pos 7 ∷ []

abbrev is_key : Option String → Bool
is_key none = false
is_key (some key) = true

abbrev has_flag : Option String → String → Bool
has_flag none name = false
has_flag (some key) name = str_eq key name

-- A value that is either the key of its one true flag, or no dict.
abbrev reader : ParamsReader (Option String)
reader = record { is_dict = is_key; flag = has_flag; model_validate = λ v. none }

validate_request_example :
    validate_request reader prompt 4 (some (some "do_remote_decode")) 100 16 (some kv_both) ≡ none
    ↔ ((0 < length prompt)
        × InVocabulary 100 prompt
        × (length prompt < 16)
        × (length prompt + 4 ≤ 16)
        × CanServe reader (some (some "do_remote_decode")) (some kv_both))
validate_request_example =
    validate_request_lem reader prompt 4 (some (some "do_remote_decode")) 100 16 (some kv_both)
