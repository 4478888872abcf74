-- ===== src/Tests/Outputs.antt =====
-- A request with a stream, and a detokenizer that counts its tokens.
use lean_vllm.Prelude.{ℕ, ◌+◌, ◌≡◌, ◌⊎◌, refl, Bool, none, some, true, false, List, [], ◌∷◌, ◌++◌}
use lean_vllm.Prelude.Names
use lean_vllm.Prelude.Dict
use lean_vllm.Deltas.{RequestOutput}
use lean_vllm.OutputProcessor.{
  Decoded, RequestState, OutputProcessor, output, returned, raised, decoded, read, queue,
  final_output, abort_request, fail_all, decode_all, decode, process_output,
}
use lean_vllm.OutputProcessor.Readers.{is_open, outputs_of, abort_request_lem, fail_all_lem}
use lean_vllm.OutputProcessor.Texts.{process_output_lem}

abbrev first_output : RequestOutput
first_output = record {
  token_ids = 5 ∷ [];
  text = 105 ∷ [];
  finished = false;
  finish_reason = none;
  kv_transfer_params = none;
}

abbrev last_tokens : RequestOutput
last_tokens = record first_output { token_ids = 6 ∷ []; text = []; finished = true }

abbrev live : RequestState ℕ
live = record { detokenizer = some 1; stream = some 3 }

abbrev processor : OutputProcessor ℕ
processor = record {
  has_tokenizer = true;
  request_states = ("a", live) ∷ [];
  streams = (3, output first_output ∷ []) ∷ [];
}

abbrev start : List ℕ → Bool → ℕ
start prompt skip = 0

abbrev letter : ℕ → ℕ → Decoded ℕ
letter n token_id = decoded (n + 1) (some ((token_id + 100) ∷ []))

abort_request_example :
    (Names.get "a" (abort_request processor "a").0.request_states ≡ none)
    × (read (queue (abort_request processor "a").0 3)
        ≡ (outputs_of (queue processor 3) ++ final_output "abort" ∷ [], returned))
unfolding Names.get Dict.get
abort_request_example = abort_request_lem processor "a" live 3 refl refl refl

fail_all_example :
    ((fail_all processor).request_states ≡ [])
    × (read (queue (fail_all processor) 3) ≡ (outputs_of (queue processor 3), raised))
unfolding Names.get Dict.get
fail_all_example = fail_all_lem processor "a" live 3 refl refl refl

abbrev afresh : ℕ → ℕ
afresh s = 0

process_output_example :
    (p' : OutputProcessor ℕ) × (process_output start afresh letter processor "a" last_tokens
      ≡ some (p', []))
    × (queue p' 3 ≡ queue processor 3 ++ output (record last_tokens { text = 106 ∷ [] }) ∷ [])
    × (((true ≡ true)
          × (Names.get "a" p'.request_states ≡ none)
          × (read (queue p' 3) ≡ (
            outputs_of (queue processor 3) ++ record last_tokens { text = 106 ∷ [] } ∷ [],
            returned,
          )))
        ⊎ ((true ≡ false)
            × (Names.get "a" p'.request_states ≡ some (record live { detokenizer = some 2 }))
            × (is_open (queue p' 3) ≡ true)))
unfolding Names.get Dict.get decode_all decode
process_output_example =
    process_output_lem start afresh letter processor "a" live 3 1 2 last_tokens (106 ∷ []) refl refl
      refl refl refl
