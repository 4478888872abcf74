-- ===== src/Engine/Generate.antt =====
-- generate of lean_vllm/engine/llm_engine.py: the requests go in together, the engine steps until
-- nothing is left, and each request's outputs are added up. A call with one setting for all prompts
-- gives it to each. The steps' times are a list of the clock's readings and of durations, which is
-- the loop's fuel; the progress bar is left out.
use lean_vllm.Prelude.{
  ℕ, String, Option, none, some, List, [], ◌∷◌, ◌++◌, if◌then◌else◌, ◌==◌, length, assert, ◌>>=◌,
  ◌>>◌,
}
use lean_vllm.Prelude.Names
use lean_vllm.Sequence.{SamplingParams}
use lean_vllm.Deltas.{RequestOutput}
use lean_vllm.Engine.{Tokenizer, ModelRunner, Prompt, Engine, Answer, add_request, abort_request}
use lean_vllm.Engine.Stepping.{step, is_idle}

pub record Collected : Type 0 where
  pub text : List ℕ
  pub token_ids : List ℕ

abbrev pub nothing : Collected
nothing = record { text = []; token_ids = [] }

abbrev pub extended : Collected → RequestOutput → Collected
extended c o = record { text = c.text ++ o.text; token_ids = c.token_ids ++ o.token_ids }

-- `collected[output.request_id]` gets an output; `none` is its KeyError.
unfoldable pub collect_output :
    List (String × Collected) → String → RequestOutput → Option (List (String × Collected))
collect_output collected request_id o = do
  c ← Names.get request_id collected
  some (Names.put request_id (extended c o) collected)

unfoldable pub collect_outputs :
    List (String × Collected) → List (String × RequestOutput) → Option (List (String × Collected))
collect_outputs collected [] = some collected
collect_outputs collected ((request_id, o) ∷ outputs) = do
  collected' ← collect_output collected request_id o
  collect_outputs collected' outputs

unfoldable pub start_collecting : List String → List (String × Collected)
start_collecting [] = []
start_collecting (request_id ∷ request_ids) =
    Names.put request_id nothing (start_collecting request_ids)

-- `[collected[request_id] for request_id in request_ids]`
unfoldable pub results : List (String × Collected) → List String → Option (List Collected)
results collected [] = some []
results collected (request_id ∷ request_ids) = do
  c ← Names.get request_id collected
  rest ← results collected request_ids
  some (c ∷ rest)

-- `zip(prompts, sampling_params)`
abbrev pub zip_params : List Prompt → List SamplingParams → List (Prompt × SamplingParams)
zip_params [] params = []
zip_params (prompt ∷ prompts) [] = []
zip_params (prompt ∷ prompts) (p ∷ params) = (prompt, p) ∷ zip_params prompts params

module _ {S : Type 0} {R : Type 0} (tokenizer : Tokenizer S) (model_runner : ModelRunner R)
    (default_name : ℕ → String) (transfer_name : ℕ → String) where
  unfoldable pub abort_all : Engine S R → ℕ → List String → Option (Engine S R)
  abort_all e now [] = some e
  abort_all e now (request_id ∷ request_ids) = do
    (e', aborted) ←
        abort_request tokenizer model_runner default_name transfer_name e now request_id "abort"
    abort_all e' now request_ids

  -- The requests' ids, or none where one is refused and the others are aborted.
  abbrev pub Entered : Type 0
  Entered = Engine S R × Option (List String)

  abbrev add_next :
      (Engine S R → List String → Option Entered)
      → ℕ
      → List String
      → Engine S R × Answer
      → Option Entered
  add_next again now ids (e, Answer.accepted request_id) = again e (ids ++ request_id ∷ [])
  add_next again now ids (e, Answer.refused refusal) = do e' ← abort_all e now ids; some (e', none)

  -- The loop over the prompts; `ids` are those of the requests so far.
  unfoldable pub add_all :
      Engine S R → ℕ → List (Prompt × SamplingParams) → List String → Option Entered
  add_all e now [] ids = some (e, some ids)
  add_all e now ((prompt, params) ∷ rest) ids = do
    answered ←
        add_request tokenizer model_runner default_name transfer_name e now prompt params none
    add_next (λ e' ids'. add_all e' now rest ids') now ids answered

  -- The loop over the steps.
  unfoldable pub step_all :
      Engine S R
      → List (ℕ × ℕ)
      → List (String × Collected)
      → Option (Engine S R × List (String × Collected))
  step_all e [] collected =
      if is_idle tokenizer model_runner default_name transfer_name e
      then some (e, collected)
      else none
  step_all e ((now, duration) ∷ times) collected =
      if is_idle tokenizer model_runner default_name transfer_name e
      then some (e, collected)
      else do
        (e', outputs, num_prefill, num_decode) ←
            step tokenizer model_runner default_name transfer_name e now duration
        collected' ← collect_outputs collected outputs
        step_all e' times collected'

  -- What follows the loop over the prompts: the results in their order, or none where a request was
  -- refused.
  abbrev finish_generate : List (ℕ × ℕ) → Entered → Option (Engine S R × Option (List Collected))
  finish_generate times (e, none) = some (e, none)
  finish_generate times (e, some ids) = do
    (e', collected) ← step_all e times (start_collecting ids)
    rs ← results collected ids
    some (e', some rs)

  unfoldable pub generate :
      Engine S R
      → ℕ
      → List Prompt
      → List SamplingParams
      → List (ℕ × ℕ)
      → Option (Engine S R × Option (List Collected))
  generate e now prompts params times = do
    assert (length params == length prompts)
    entered ← add_all e now (zip_params prompts params) []
    finish_generate times entered
