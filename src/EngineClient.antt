-- ===== src/EngineClient.antt =====
-- AsyncMPClient of lean_vllm/engine/core_client.py: what waits in the server for the engine core.
-- An asyncio future is a number, and `settled` lists the futures that are done, oldest first, with
-- what they got; the event loop runs one method at a time up to its next await, so that a coroutine
-- is the function up to its await and the one after it. The process, its sockets and the loop
-- itself are not part of this; what a send on the socket does is an argument.
pub mod Futures
pub mod Kept
pub mod Entries
pub mod Lifetime
use lean_vllm.Prelude.{
  ℕ, ◌+◌, String, Bool, true, false, not, ◌&&◌, ◌||◌, Option, none, some, List, [], ◌∷◌, ◌++◌, ◌==◌,
  if◌then◌else◌,
}
use lean_vllm.Prelude.Dict
use lean_vllm.Prelude.Names
use lean_vllm.Sequence.{SamplingParams}
use lean_vllm.Deltas.{RequestOutput}
use lean_vllm.Engine.Core.{Message, Reply, AddError}

-- What a future gets: the value of a reply, an EngineDeadError, or a cancel.
pub data Settling : Type 0 where
  answer : Option AddError → Settling
  value : List ℕ → Settling
  dead cancelled : Settling

-- An item of the queue of outputs.
pub data Batch : Type 0 where
  batch : List (String × RequestOutput) → Batch
  death : Batch

-- A non-blocking send is queued, finds no peer (zmq.Again), or raises on a closed socket.
pub data Sending : Type 0 where
  queued no_peer closed : Sending

pub record Client : Type 0 where
  pub is_dead : Bool
  pub stopped : Bool
  pub adding : List (String × ℕ)
  pub calls : List (ℕ × ℕ)
  pub outputs : List Batch
  pub sent : List Message
  pub next_call : ℕ
  pub next_future : ℕ
  pub settled : List (ℕ × Settling)

-- Future.done
unfoldable pub is_done : ℕ → List (ℕ × Settling) → Bool
is_done f [] = false
is_done f ((g, s) ∷ settled) = let rest = is_done f settled in if g == f then true else rest

-- `if not future.done(): future.set_result(...)`, and the same for set_exception and cancel.
unfoldable pub settle : ℕ → Settling → List (ℕ × Settling) → List (ℕ × Settling)
settle f s settled = if is_done f settled then settled else settled ++ (f, s) ∷ []

abbrev pub settle_some : Option ℕ → Settling → List (ℕ × Settling) → List (ℕ × Settling)
settle_some none s settled = settled
settle_some (some f) s settled = settle f s settled

unfoldable pub fail_named : List (String × ℕ) → List (ℕ × Settling) → List (ℕ × Settling)
fail_named [] settled = settled
fail_named ((request_id, f) ∷ futures) settled = fail_named futures (settle f dead settled)

unfoldable pub fail_numbered : List (ℕ × ℕ) → List (ℕ × Settling) → List (ℕ × Settling)
fail_numbered [] settled = settled
fail_numbered ((call_id, f) ∷ futures) settled = fail_numbered futures (settle f dead settled)

-- _fail_pending
unfoldable pub fail_pending : Client → Client
fail_pending c = record c {
  settled = fail_numbered c.calls (fail_named c.adding c.settled);
  adding = [];
  calls = [];
}

-- _die
unfoldable pub die : Client → Client
die c =
    if c.is_dead
    then c
    else (let c' = fail_pending (record c { is_dead = true }) in
        record c' { outputs = c'.outputs ++ death ∷ [] })

-- How a coroutine gets to its await: it waits for a future, or has raised.
pub data Begun : Type 0 where
  awaits : ℕ → Begun
  raised : Begun

-- _send, from a coroutine that will await `f`.
abbrev pub send : Client → Message → ℕ → Sending → Client × Begun
send c message f queued = (record c { sent = c.sent ++ message ∷ [] }, awaits f)
send c message f no_peer = (die c, awaits f)
send c message f closed = (c, raised)

-- add_request_async up to its await.
unfoldable pub begin_add : Client → String → List ℕ → SamplingParams → Sending → Client × Begun
begin_add c request_id prompt params sending =
    if c.stopped || c.is_dead
    then (c, raised)
    else send
        (record c {
          adding = Names.put request_id c.next_future c.adding;
          next_future = c.next_future + 1;
        })
        (Message.add_message request_id prompt params) c.next_future sending

-- add_request_async after its await raised.
unfoldable pub end_add : Client → String → Client
end_add c request_id = record c { adding = Names.without request_id c.adding }

-- A caller is cancelled while it awaits `f`.
unfoldable pub cancel : Client → ℕ → Client
cancel c f = record c { settled = settle f cancelled c.settled }

-- abort_request, whose _send awaits nothing.
unfoldable pub abort_request : Client → String → String → Sending → Client
abort_request c request_id reason sending =
    if c.is_dead || c.stopped
    then c
    else (send c (Message.abort_message request_id reason) 0 sending).0

-- render_metrics_async up to its await.
unfoldable pub begin_metrics : Client → Sending → Client × Begun
begin_metrics c sending =
    if c.is_dead
    then (c, raised)
    else send
        (record c {
          calls = Dict.put c.next_call c.next_future c.calls;
          next_call = c.next_call + 1;
          next_future = c.next_future + 1;
        })
        (Message.metrics_message c.next_call) c.next_future sending

-- The `finally` of render_metrics_async.
unfoldable pub end_metrics : Client → ℕ → Client
end_metrics c call_id = record c { calls = Dict.without call_id c.calls }

-- _handle of a message, and whether the reader goes on.
unfoldable pub handle : Client → Reply → Client × Bool
handle c (Reply.outputs os) = (record c { outputs = c.outputs ++ batch os ∷ [] }, true)
handle c (Reply.added request_id error) = (
  record c {
    adding = Names.without request_id c.adding;
    settled = settle_some (Names.get request_id c.adding) (answer error) c.settled;
  },
  true,
)
handle c (Reply.metrics_text call_id text) =
    (record c { settled = settle_some (Dict.get call_id c.calls) (value text) c.settled }, true)
handle c Reply.dead = (die c, false)

-- _on_process_exit, and the reader on an error.
unfoldable pub on_process_exit : Client → Client
on_process_exit c = if c.stopped then c else die c

-- shutdown
unfoldable pub shutdown : Client → Client
shutdown c = if c.stopped then c else fail_pending (record c { stopped = true })

abbrev pub started : Client
started = record {
  is_dead = false;
  stopped = false;
  adding = [];
  calls = [];
  outputs = [];
  sent = [];
  next_call = 0;
  next_future = 0;
  settled = [];
}

abbrev pub first_output : Client → List Batch → Option (Batch × Client)
first_output c [] = none
first_output c (b ∷ bs) = some (b, record c { outputs = bs })

-- get_output_async: the head of the queue, if there is one yet.
unfoldable pub take_output : Client → Option (Batch × Client)
take_output c = first_output c c.outputs
