-- ===== src/Engine/Core.antt =====
-- EngineCore and run_engine_core of lean_vllm/engine/core.py: the messages of the client, the steps,
-- and the replies. A message or a reply is a pickled tuple of the source; the sockets are lists,
-- oldest first, and what a poll of the input finds is an argument. A core that raises is a value, as
-- it tells the client so.
pub mod Replies
use lean_vllm.Prelude.{
  ℕ, String, Bool, true, false, not, ◌&&◌, ◌||◌, Option, none, some, List, [], ◌∷◌, ◌++◌, ◌==◌,
  if◌then◌else◌,
}
use lean_vllm.Sequence.{SamplingParams}
use lean_vllm.Deltas.{RequestOutput}
use lean_vllm.Metrics.{Metrics}
use lean_vllm.Scheduler.State.{is_empty}
use lean_vllm.Engine.{
  Tokenizer, ModelRunner, Prompt, Engine, Answer, Refusal, add_request, abort_request,
}
use lean_vllm.Engine.Stepping.{step, is_idle}

pub data Message : Type 0 where
  add_message : String → List ℕ → SamplingParams → Message
  abort_message : String → String → Message
  metrics_message : ℕ → Message
  shutdown_message unknown_message : Message

-- Why a request was not added: an InvalidRequest, or any other exception.
pub data AddError : Type 0 where
  invalid : Refusal → AddError
  unexpected : AddError

pub data Reply : Type 0 where
  added : String → Option AddError → Reply
  outputs : List (String × RequestOutput) → Reply
  metrics_text : ℕ → List ℕ → Reply
  dead : Reply

pub record Core (S : Type 0) (R : Type 0) : Type 0 where
  pub engine : Engine S R
  pub running : Bool
  pub sent : List Reply

-- A core that raised, with what it sent.
pub data Outcome (S : Type 0) (R : Type 0) : Type 0 where
  served : Core S R → Outcome S R
  raised : List Reply → Outcome S R

-- What a poll of the input ends with: the messages there are, each with the time at which it is
-- handled, or a client that is gone.
pub data Poll : Type 0 where
  arrived : List (ℕ × Message) → Poll
  client_gone : Poll

-- The inputs of one round of run: what its first poll and the one after an empty step find, the
-- time of its step and how long that takes.
pub record Round : Type 0 where
  pub first : Poll
  pub second : Poll
  pub now : ℕ
  pub duration : ℕ

abbrev pub error_of : Answer → Option AddError
error_of (Answer.accepted request_id) = none
error_of (Answer.refused refusal) = some (invalid refusal)

abbrev pub worked : List (String × RequestOutput) → ℕ → ℕ → Bool
worked os num_prefill num_decode = not (is_empty os && num_prefill == 0 && num_decode == 0)

module _ {S : Type 0} {R : Type 0} where
  abbrev pub send : Core S R → Reply → Core S R
  send c reply = record c { sent = c.sent ++ reply ∷ [] }

  abbrev pub and_then : Outcome S R → (Core S R → Outcome S R) → Outcome S R
  and_then (served c) f = f c
  and_then (raised sent) f = raised sent

  -- The reply to an add; an exception other than a refusal leaves the engine as it was.
  abbrev pub answer_add : Core S R → String → Option (Engine S R × Answer) → Core S R
  answer_add c request_id none = send c (added request_id (some unexpected))
  answer_add c request_id (some (e, answer)) =
      send (record c { engine = e }) (added request_id (error_of answer))

  abbrev pub after_abort : Core S R → Option (Engine S R × Bool) → Outcome S R
  after_abort c none = raised c.sent
  after_abort c (some (e, aborted)) = served (record c { engine = e })

  -- The outputs of a step go out if there are any.
  abbrev pub send_outputs : Core S R → List (String × RequestOutput) → Core S R
  send_outputs c os = if is_empty os then c else send c (outputs os)

module _ {S : Type 0} {R : Type 0} (tokenizer : Tokenizer S) (model_runner : ModelRunner R)
    (default_name : ℕ → String) (transfer_name : ℕ → String) (render : Metrics → List ℕ) where
  -- _handle; an unknown message is a ValueError.
  unfoldable pub handle : Core S R → ℕ → Message → Outcome S R
  handle c now (add_message request_id ids params) = served (
      answer_add c request_id (
        add_request tokenizer model_runner default_name transfer_name c.engine now
          (Prompt.token_ids ids) params (some request_id)))
  handle c now (abort_message request_id reason) = after_abort c (
      abort_request tokenizer model_runner default_name transfer_name c.engine now request_id
        reason)
  handle c now (metrics_message call_id) =
      served (send c (metrics_text call_id (render c.engine.metrics)))
  handle c now shutdown_message = served (record c { running = false })
  handle c now unknown_message = raised c.sent

  -- The loop of _handle_inputs; what a shutdown leaves is not read.
  unfoldable pub handle_all : Core S R → List (ℕ × Message) → Outcome S R
  handle_all c [] = served c
  handle_all c ((now, message) ∷ messages) =
      if c.running then and_then (handle c now message) (λ c'. handle_all c' messages) else served c

  -- _handle_inputs. Only an idle core, which waits for as long as it takes, looks for its client.
  unfoldable pub handle_inputs : Core S R → Bool → Poll → Outcome S R
  handle_inputs c idle (arrived messages) = handle_all c messages
  handle_inputs c idle client_gone =
      if idle then served (record c { running = false }) else served c

  abbrev pub after_step :
      Core S R → Poll → Option (Engine S R × List (String × RequestOutput) × ℕ × ℕ) → Outcome S R
  after_step c second none = raised c.sent
  after_step c second (some (e, os, num_prefill, num_decode)) =
      let c' = send_outputs (record c { engine = e }) os in
      if worked os num_prefill num_decode then served c' else handle_inputs c' false second

  abbrev pub idle_core : Core S R → Bool
  idle_core c = is_idle tokenizer model_runner default_name transfer_name c.engine

  -- The step of a round, after its inputs.
  abbrev pub step_core : Round → Core S R → Outcome S R
  step_core r c =
      if not c.running || idle_core c
      then served c
      else after_step c r.second
          (step tokenizer model_runner default_name transfer_name c.engine r.now r.duration)

  -- The body of run's loop.
  unfoldable pub run_round : Core S R → Round → Outcome S R
  run_round c r = and_then (handle_inputs c (idle_core c) r.first) (step_core r)

  -- run, over the rounds that there are inputs for.
  unfoldable pub run : Core S R → List Round → Outcome S R
  run c [] = served c
  run c (r ∷ rounds) =
      if c.running then and_then (run_round c r) (λ c'. run c' rounds) else served c

  -- The end of run_engine_core: what was sent, and at last the news of a core that raised.
  unfoldable pub run_engine_core : Core S R → List Round → List Reply
  run_engine_core c rounds = elim (run c rounds) [
    | served c' ↦ c'.sent
    | raised sent ↦ sent ++ dead ∷ []
  ]
