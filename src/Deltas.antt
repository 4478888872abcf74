-- ===== src/Deltas.antt =====
-- The text that a request sends its client: _deltas and _collect of
-- lean_vllm/entrypoints/api_server.py over the outputs of lean_vllm/engine/output.py. The outputs
-- that the engine yields are a list; the metrics of an output are left out.
pub mod Streams
use lean_vllm.Prelude.{
  ℕ, ◌+◌, String, str_eq, Bool, true, false, Option, none, some, List, [], ◌∷◌, ◌++◌, if◌then◌else◌,
  length,
}
use lean_vllm.Sequence.{KvTransferParams}
use lean_vllm.StopChecker.{StopChecker, push, flush, is_nonempty}

pub record RequestOutput : Type 0 where
  pub token_ids : List ℕ
  pub text : List ℕ
  pub finished : Bool
  pub finish_reason : Option String
  pub kv_transfer_params : Option KvTransferParams

-- One yielded tuple.
pub record Delta : Type 0 where
  pub text : List ℕ
  pub finish_reason : Option String
  pub num_completion_tokens : ℕ
  pub kv_transfer_params : Option KvTransferParams

-- How the generator ends: with the request finished, with a stop string found and the request
-- aborted, with the HTTPException of an unknown reason, or with no more outputs.
pub data Ending : Type 0 where
  complete aborted refused exhausted : Ending

-- FINISH_REASONS; `none` is a reason that is no key of it.
unfoldable pub client_reason : Option String → Option String
client_reason none = none
client_reason (some reason) =
    if str_eq reason "stop"
    then some "stop"
    else if str_eq reason "length"
    then some "length"
    else if str_eq reason "abort"
    then some "stop"
    else none

-- The last delta of a finished output, by the reason that the client sees.
unfoldable pub last_delta : Option String → List ℕ → ℕ → RequestOutput → List Delta × Ending
last_delta none text num_tokens output = ([], refused)
last_delta (some reason) text num_tokens output = (
  record {
    text = text;
    finish_reason = some reason;
    num_completion_tokens = num_tokens;
    kv_transfer_params = output.kv_transfer_params;
  }
      ∷ [],
  complete,
)

-- A delta with text and no reason; an empty text yields nothing.
unfoldable pub text_delta : List ℕ → ℕ → List Delta → List Delta
text_delta [] num_tokens rest = rest
text_delta (x ∷ text) num_tokens rest =
    record {
      text = x ∷ text;
      finish_reason = none;
      num_completion_tokens = num_tokens;
      kv_transfer_params = none;
    }
    ∷ rest

-- _deltas
unfoldable pub deltas : StopChecker → ℕ → List RequestOutput → List Delta × Ending
deltas checker num_tokens [] = ([], exhausted)
deltas checker num_tokens (output ∷ outputs) =
    let n = num_tokens + length output.token_ids in
    let pushed = push checker output.text in
    let rest = deltas pushed.1 n outputs in
    if pushed.1.matched
    then (
      record {
        text = pushed.0;
        finish_reason = some "stop";
        num_completion_tokens = n;
        kv_transfer_params = none;
      }
          ∷ [],
      aborted,
    )
    else if output.finished
    then last_delta (client_reason output.finish_reason) (pushed.0 ++ (flush pushed.1).0) n output
    else (text_delta pushed.0 n rest.0, rest.1)

-- The text of a reply that is not streamed, as _collect adds it up.
unfoldable pub collect : List Delta → List ℕ
collect [] = []
collect (d ∷ ds) = d.text ++ collect ds
