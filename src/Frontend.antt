-- ===== src/Frontend.antt =====
-- AsyncLLM of lean_vllm/engine/async_llm.py: the server's half of the engine, which has the state and
-- the stream of each request and sends requests to the core through EngineClient. A coroutine is the
-- function up to its await and the ones after it. A stream is a number; the uuid of an unnamed
-- request, the tokenizer and what a send on the socket does are arguments.
use lean_vllm.Prelude.{
  ℕ, ◌+◌, String, Bool, true, false, ◌||◌, Option, none, some, List, ◌==◌, if◌then◌else◌, ◌>>=◌,
}
use lean_vllm.Prelude.Names
use lean_vllm.Sequence.{SamplingParams}
use lean_vllm.OutputProcessor.{OutputProcessor, RequestState, stream_of}
use lean_vllm.OutputProcessor
use lean_vllm.Engine.{Tokenizer, Prompt}
use lean_vllm.EngineClient.{
  Client, Begun, Batch, Sending, begin_add, end_add, take_output, shutdown,
}
use lean_vllm.EngineClient

pub record AsyncLlm (S : Type 0) : Type 0 where
  pub engine_core : Client
  pub output_processor : OutputProcessor S
  pub is_dead : Bool
  pub stopped : Bool
  pub next_stream : ℕ

-- add_request up to its await: it raises, or awaits a future of the client for a stream.
pub data Admission : Type 0 where
  duplicate engine_dead : Admission
  awaits : String → ℕ → ℕ → Admission

-- What an await of the client comes back with: none for the admission, an InvalidRequest of the
-- core, the exception of a dead engine, or a cancel.
pub data Awaited : Type 0 where
  admitted refused died cancelled : Awaited

module _ {S : Type 0} (tokenizer : Tokenizer S) where
  abbrev encoded : Prompt → List ℕ
  encoded (Prompt.text t) = tokenizer.encode t
  encoded (Prompt.token_ids ids) = ids

  -- The client's call; where it raises at once, the state goes.
  abbrev asked : AsyncLlm S → String → ℕ → Client × Begun → AsyncLlm S × Admission
  asked e request_id stream (c, Begun.awaits f) =
      (record e { engine_core = c }, awaits request_id stream f)
  asked e request_id stream (c, Begun.raised) = (
    record e {
      engine_core = c;
      output_processor = (OutputProcessor.abort_request e.output_processor request_id).0;
    },
    engine_dead,
  )

  -- add_request up to its await
  unfoldable pub begin_add_request :
      AsyncLlm S → Prompt → SamplingParams → String → Sending → AsyncLlm S × Admission
  begin_add_request e prompt params request_id sending =
      let ids = encoded prompt in
      if Names.has request_id e.output_processor.request_states
      then (e, duplicate)
      else if e.stopped || e.is_dead
      then (e, engine_dead)
      else asked
          (record e {
            next_stream = e.next_stream + 1;
            output_processor =
                OutputProcessor.add_request tokenizer.fresh tokenizer.restarted
                  tokenizer.decode_step e.output_processor request_id ids params.skip_special_tokens
                  (some e.next_stream);
          })
          request_id e.next_stream (begin_add e.engine_core request_id ids params sending)

  -- abort
  unfoldable pub abort : AsyncLlm S → String → String → Sending → AsyncLlm S
  abort e request_id reason sending =
      let e' = record e {
        output_processor = (OutputProcessor.abort_request e.output_processor request_id).0;
      } in
      if e.is_dead || e.stopped then e' else record e' {
        engine_core = EngineClient.abort_request e.engine_core request_id reason sending;
      }

  -- add_request after its await, the end of the client's call included; the stream that it returns,
  -- unless it raises.
  unfoldable pub end_add_request :
      AsyncLlm S → String → ℕ → Awaited → Sending → AsyncLlm S × Option ℕ
  end_add_request e request_id stream admitted sending = (e, some stream)
  end_add_request e request_id stream refused sending = (
    record e { output_processor = (OutputProcessor.abort_request e.output_processor request_id).0 },
    none,
  )
  end_add_request e request_id stream died sending = (
    record e {
      engine_core = end_add e.engine_core request_id;
      output_processor = (OutputProcessor.abort_request e.output_processor request_id).0;
    },
    none,
  )
  end_add_request e request_id stream cancelled sending = (
    abort (record e { engine_core = end_add e.engine_core request_id }) request_id "abort" sending,
    none,
  )

  abbrev is_stream : ℕ → Option ℕ → Bool
  is_stream stream none = false
  is_stream stream (some n) = n == stream

  -- The `finally` of _generate.
  unfoldable pub close_stream : AsyncLlm S → String → ℕ → Sending → AsyncLlm S
  close_stream e request_id stream sending =
      if is_stream stream (stream_of (Names.get request_id e.output_processor.request_states))
      then abort e request_id "abort" sending
      else e

  -- _die
  unfoldable pub die : AsyncLlm S → AsyncLlm S
  die e = if e.is_dead || e.stopped then e else record e {
    is_dead = true;
    output_processor = OutputProcessor.fail_all e.output_processor;
  }

  abbrev handle_batch : AsyncLlm S → Batch → Option (AsyncLlm S)
  handle_batch e (Batch.batch outputs) = do
    (p, unstreamed) ←
        OutputProcessor.process_outputs tokenizer.fresh tokenizer.restarted tokenizer.decode_step
          e.output_processor outputs
    some (record e { output_processor = p })
  handle_batch e Batch.death = some (die e)

  abbrev handle_taken : AsyncLlm S → Option (Batch × Client) → Option (AsyncLlm S)
  handle_taken e none = some e
  handle_taken e (some (b, c)) = handle_batch (record e { engine_core = c }) b

  -- One round of _handle_outputs; with no output it waits.
  unfoldable pub handle_output : AsyncLlm S → Option (AsyncLlm S)
  handle_output e = handle_taken e (take_output e.engine_core)

  -- stop from the event loop, with _shut_down_streams
  unfoldable pub stop : AsyncLlm S → AsyncLlm S
  stop e = if e.stopped then e else record e {
    stopped = true;
    engine_core = shutdown e.engine_core;
    output_processor = OutputProcessor.fail_all e.output_processor;
  }
