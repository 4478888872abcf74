-- ===== src/OutputProcessor.antt =====
-- lean_vllm/engine/output_processor.py and lean_vllm/utils/detokenizer.py: outputs get their text
-- and go to the stream of their request, or back to the caller. DecodeStream is of the tokenizers
-- package: its step is a parameter. The streams are the items put into each, oldest first; a request
-- names its stream by a number. Each output stands beside its request_id.
pub mod Readers
pub mod Texts
use lean_vllm.Prelude.{
  ℕ, String, Bool, true, false, Option, none, some, List, [], ◌∷◌, ◌++◌, if◌then◌else◌, ◌>>=◌,
}
use lean_vllm.Prelude.Dict
use lean_vllm.Prelude.Names
use lean_vllm.Deltas.{RequestOutput}

pub data Item : Type 0 where
  output : RequestOutput → Item
  failure : Item

-- How far a reader of a stream gets with what is there: it waits for more, returns after a finished
-- output, or raises.
pub data Reading : Type 0 where
  awaits returned raised : Reading

abbrev pub before : RequestOutput → List RequestOutput × Reading → List RequestOutput × Reading
before o rest = (o ∷ rest.0, rest.1)

-- AsyncStream.__aiter__
unfoldable pub read : List Item → List RequestOutput × Reading
read [] = ([], awaits)
read (failure ∷ items) = ([], raised)
read (output o ∷ items) =
    let rest = read items in if o.finished then (o ∷ [], returned) else before o rest

abbrev pub text_or_empty : Option (List ℕ) → List ℕ
text_or_empty none = []
text_or_empty (some text) = text

-- What DecodeStream.step does: it gives text, or none yet, or raises for a token id that is none,
-- for an invalid prefix, or otherwise.
pub data Decoded (S : Type 0) : Type 0 where
  decoded : S → Option (List ℕ) → Decoded S
  invalid_id : S → Decoded S
  invalid_prefix broken : Decoded S

pub record RequestState (S : Type 0) : Type 0 where
  pub detokenizer : Option S
  pub stream : Option ℕ

pub record OutputProcessor (S : Type 0) : Type 0 where
  pub has_tokenizer : Bool
  pub request_states : List (String × RequestState S)
  pub streams : List (ℕ × List Item)

abbrev pub items_of : Option (List Item) → List Item
items_of none = []
items_of (some items) = items

abbrev pub queue : {S : Type 0} → OutputProcessor S → ℕ → List Item
queue p n = items_of (Dict.get n p.streams)

-- AsyncStream.put, where there is a stream.
unfoldable pub put : {S : Type 0} → OutputProcessor S → Option ℕ → Item → OutputProcessor S
put p none item = p
put p (some n) item = record p { streams = Dict.put n (queue p n ++ item ∷ []) p.streams }

abbrev pub final_output : String → RequestOutput
final_output reason = record {
  token_ids = [];
  text = [];
  finished = true;
  finish_reason = some reason;
  kv_transfer_params = none;
}

abbrev pub stream_of : {S : Type 0} → Option (RequestState S) → Option ℕ
stream_of none = none
stream_of (some state) = state.stream

unfoldable pub abort_request :
    {S : Type 0} → OutputProcessor S → String → OutputProcessor S × Option (RequestState S)
abort_request p request_id =
    let state = Names.get request_id p.request_states in
    (
      put (record p { request_states = Names.without request_id p.request_states })
          (stream_of state) (output (final_output "abort")),
      state,
    )

unfoldable pub fail_each :
    {S : Type 0} → OutputProcessor S → List (String × RequestState S) → OutputProcessor S
fail_each p [] = p
fail_each p ((request_id, state) ∷ states) = fail_each (put p state.stream failure) states

unfoldable pub fail_all : {S : Type 0} → OutputProcessor S → OutputProcessor S
fail_all p = fail_each (record p { request_states = [] }) p.request_states

module _ {S : Type 0} (fresh : List ℕ → Bool → S) (restarted : S → S)
    (step : S → ℕ → Decoded S) where
  abbrev retried : Decoded S → Option (S × List ℕ)
  retried (decoded s text) = some (s, text_or_empty text)
  retried (invalid_id s) = none
  retried invalid_prefix = none
  retried broken = none

  -- The detokenizer goes on with a fresh stream, of its own skip_special_tokens, where its old one
  -- broke.
  abbrev recovered : S → ℕ → Decoded S → Option (S × List ℕ)
  recovered old token_id (decoded s text) = some (s, text_or_empty text)
  recovered old token_id (invalid_id s) = some (s, [])
  recovered old token_id invalid_prefix = retried (step (restarted old) token_id)
  recovered old token_id broken = none

  -- FastIncrementalDetokenizer.decode; `none` is the exception that goes on.
  unfoldable pub decode : S → ℕ → Option (S × List ℕ)
  decode s token_id = recovered s token_id (step s token_id)

  -- The text of an output.
  unfoldable pub decode_all : S → List ℕ → Option (S × List ℕ)
  decode_all s [] = some (s, [])
  decode_all s (token_id ∷ token_ids) = do
    (s', text) ← decode s token_id
    (s2, rest) ← decode_all s' token_ids
    some (s2, text ++ rest)

  unfoldable pub add_request :
      OutputProcessor S → String → List ℕ → Bool → Option ℕ → OutputProcessor S
  add_request p request_id prompt_token_ids skip_special_tokens stream = record p {
    request_states =
        Names.put request_id
          (record {
            detokenizer =
                if p.has_tokenizer then some (fresh prompt_token_ids skip_special_tokens) else none;
            stream = stream;
          })
          p.request_states;
  }

  abbrev with_text : Option S → RequestOutput → Option (Option S × RequestOutput)
  with_text none o = some (none, o)
  with_text (some s) o = do
    (s', text) ← decode_all s o.token_ids
    some (some s', record o { text = text })

  -- The output goes to the stream of its request, or back to the caller.
  abbrev pub route :
      OutputProcessor S
      → String
      → RequestOutput
      → Option ℕ
      → OutputProcessor S × List (String × RequestOutput)
  route p request_id o none = (p, (request_id, o) ∷ [])
  route p request_id o (some n) = (put p (some n) (output o), [])

  abbrev process_known :
      OutputProcessor S
      → String
      → RequestOutput
      → Option (RequestState S)
      → Option (OutputProcessor S × List (String × RequestOutput))
  process_known p request_id o none = some (p, [])
  process_known p request_id o (some state) = do
    (detokenizer, o') ← with_text state.detokenizer o
    let states =
        if o.finished
        then Names.without request_id p.request_states
        else Names.put request_id (record state { detokenizer = detokenizer }) p.request_states
    some (route (record p { request_states = states }) request_id o' state.stream)

  -- The body of process_outputs' loop.
  unfoldable pub process_output :
      OutputProcessor S
      → String
      → RequestOutput
      → Option (OutputProcessor S × List (String × RequestOutput))
  process_output p request_id o =
      process_known p request_id o (Names.get request_id p.request_states)

  unfoldable pub process_outputs :
      OutputProcessor S
      → List (String × RequestOutput)
      → Option (OutputProcessor S × List (String × RequestOutput))
  process_outputs p [] = some (p, [])
  process_outputs p ((request_id, o) ∷ outputs) = do
    (p', unstreamed) ← process_output p request_id o
    (p2, rest) ← process_outputs p' outputs
    some (p2, unstreamed ++ rest)
