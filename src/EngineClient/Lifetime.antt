-- ===== src/EngineClient/Lifetime.antt =====
-- The life of AsyncMPClient (lean_vllm/engine/core_client.py) as steps of the event loop, and what
-- becomes of the futures that its callers await.
use lean_vllm.Prelude.{
  ℕ, ◌≤◌, ◌<◌, String, ◌≡◌, ◌⊎◌, inl, inr, refl, ap, Bool, true, false, ◌||◌, none, some, subst,
  List, [], ◌∷◌, ◌++◌, subst, if◌then◌else◌, arith, Bool-cases,
}
use lean_vllm.Prelude.Counting.{contains}
use lean_vllm.Prelude.Dict
use lean_vllm.Prelude.Names
use lean_vllm.Sequence.{SamplingParams}
use lean_vllm.Engine.Core.{Reply, Message}
use lean_vllm.EngineClient.{
  Client, Settling, Sending, Batch, Begun, first_output, is_done, fail_pending, die, send,
  begin_add, end_add, cancel, abort_request, begin_metrics, end_metrics, handle, on_process_exit,
  shutdown, take_output, started,
}
use lean_vllm.EngineClient.Futures.{times, values, is_done-times}
use lean_vllm.EngineClient.Kept.{
  Own, Waits, IsKept, failed-IsKept, settled-IsKept, left_call-IsKept, lost_of,
}
use lean_vllm.EngineClient.Entries.{
  added-IsKept, asked-IsKept, answered-IsKept, valued-IsKept, took_name-IsKept,
}

-- The futures that an add takes the entry of.
abbrev pub displaced : Client → String → List ℕ
displaced c request_id =
    if c.stopped || c.is_dead then [] else lost_of (Names.get request_id c.adding) c.settled

-- What the event loop does next, with the futures that lose their entry by it while they are not
-- done: an add of an id that another add waits for takes its entry, and so does the cleanup of a
-- caller whose entry a later add of the id has taken. Whoever is cancelled awaits a future that there
-- is, and render_metrics_async, whose call_id is its own, ends with its future done.
pub data ClientStep : Client → List ℕ → Client → Type 0 where
  adds :
      (c : Client) (request_id : String) (prompt : List ℕ) (params : SamplingParams) (s : Sending)
      → ClientStep c (displaced c request_id) (begin_add c request_id prompt params s).0
  ends_add :
      (c : Client) (request_id : String)
      → ClientStep c (lost_of (Names.get request_id c.adding) c.settled) (end_add c request_id)
  cancels : (c : Client) (f : ℕ) → f < c.next_future → ClientStep c [] (cancel c f)
  aborts :
      (c : Client) (request_id reason : String) (s : Sending)
      → ClientStep c [] (abort_request c request_id reason s)
  asks_metrics : (c : Client) (s : Sending) → ClientStep c [] (begin_metrics c s).0
  ends_metrics :
      (c : Client) (call_id : ℕ)
      → Own (Dict.get call_id c.calls) c.settled
      → ClientStep c [] (end_metrics c call_id)
  handles : (c : Client) (reply : Reply) → ClientStep c [] (handle c reply).0
  exits : (c : Client) → ClientStep c [] (on_process_exit c)
  shuts_down : (c : Client) → ClientStep c [] (shutdown c)
  takes : (c c' : Client) (b : Batch) → take_output c ≡ some (b, c') → ClientStep c [] c'

-- The clients that a run gets to, with the futures that have lost their entry.
pub data Reached : Client → List ℕ → Type 0 where
  starts : Reached started []
  steps :
      (c c' : Client) (gone lost : List ℕ)
      → Reached c lost
      → ClientStep c gone c'
      → Reached c' (gone ++ lost)

pub record IsSound (c : Client) (lost : List ℕ) : Type 0 where
  pub futures : IsKept c.settled c.adding c.calls c.next_future c.next_call lost
  pub quiet : c.is_dead ≡ true → (c.adding ≡ []) × (c.calls ≡ [])

die-IsSound : {lost : List ℕ} (c : Client) → IsSound c lost → IsSound (die c) lost
unfolding die fail_pending
die-IsSound c i = elim (Bool-cases c.is_dead) [
  | inl gone ↦ simp gone i
  | inr alive ↦ simp alive (record { futures = failed-IsKept i.futures; quiet = λ h. (refl, refl) })
]

abbrev KeptAt : Client → List ℕ → Type 0
KeptAt c lost = IsKept c.settled c.adding c.calls c.next_future c.next_call lost

-- A live client sends, or dies of it.
send-IsSound :
    {lost : List ℕ} (c : Client) (m : Message) (f : ℕ) (s : Sending)
    → c.is_dead ≡ false
    → KeptAt c lost
    → IsSound (send c m f s).0 lost
unfolding die fail_pending
send-IsSound c m f Sending.queued alive i = record { futures = i; quiet = λ h. cc }
send-IsSound c m f Sending.closed alive i = record { futures = i; quiet = λ h. cc }
send-IsSound c m f Sending.no_peer alive i = die-IsSound c (record { futures = i; quiet = λ h. cc })

handle-IsSound :
    {lost : List ℕ} (c : Client) (reply : Reply) → IsSound c lost → IsSound (handle c reply).0 lost
unfolding handle Names.without
handle-IsSound c (Reply.outputs os) i = record { futures = i.futures; quiet = i.quiet }
handle-IsSound c (Reply.added request_id error) i = record {
  futures = answered-IsKept request_id (Settling.answer error) _ refl i.futures;
  quiet = λ h. (ap (λ d. Names.without request_id d) (i.quiet h).0, (i.quiet h).1);
}
handle-IsSound c (Reply.metrics_text call_id text) i = record {
  futures = valued-IsKept call_id (Settling.value text) _ refl i.futures;
  quiet = i.quiet;
}
handle-IsSound c Reply.dead i = die-IsSound c i

-- The branch that a guard leaves.
pick-IsSound :
    {lost : List ℕ} (b : Bool) (x y : Client × Begun)
    → IsSound x.0 lost
    → (b ≡ false → IsSound y.0 lost)
    → IsSound (if b then x else y).0 lost
pick-IsSound true x y i f = i
pick-IsSound false x y i f = f refl

adds-IsSound :
    {lost : List ℕ} (c : Client) (request_id : String) (prompt : List ℕ) (params : SamplingParams)
    (s : Sending)
    → IsSound c lost
    → IsSound (begin_add c request_id prompt params s).0 (displaced c request_id ++ lost)
unfolding begin_add
adds-IsSound {lost} c request_id prompt params s i = elim (Bool-cases (c.stopped || c.is_dead)) [
  | inl off ↦ simp off i
  | inr on ↦ simp on (
      send-IsSound _ (Message.add_message request_id prompt params) c.next_future s
        (ground (arith, on)) (added-IsKept request_id i.futures))
]

asks-IsSound :
    {lost : List ℕ} (c : Client) (s : Sending) → IsSound c lost → IsSound (begin_metrics c s).0 lost
unfolding begin_metrics
asks-IsSound c s i = pick-IsSound c.is_dead _ _ i (λ on.
    send-IsSound _ (Message.metrics_message c.next_call) c.next_future s on
      (asked-IsKept i.futures))

aborts-IsSound :
    {lost : List ℕ} (c : Client) (request_id reason : String) (s : Sending)
    → IsSound c lost
    → IsSound (abort_request c request_id reason s) lost
unfolding abort_request
aborts-IsSound c request_id reason s i = elim (Bool-cases (c.is_dead || c.stopped)) [
  | inl off ↦ simp off i
  | inr on ↦
      simp on (
        send-IsSound c (Message.abort_message request_id reason) 0 s (ground (arith, on)) i.futures)
]

exits-IsSound : {lost : List ℕ} (c : Client) → IsSound c lost → IsSound (on_process_exit c) lost
unfolding on_process_exit
exits-IsSound c i = elim (Bool-cases c.stopped) [
  | inl off ↦ simp off i
  | inr on ↦ simp on (die-IsSound c i)
]

shuts_down-IsSound : {lost : List ℕ} (c : Client) → IsSound c lost → IsSound (shutdown c) lost
unfolding shutdown fail_pending
shuts_down-IsSound c i = elim (Bool-cases c.stopped) [
  | inl off ↦ simp off i
  | inr on ↦ simp on (record { futures = failed-IsKept i.futures; quiet = λ h. (refl, refl) })
]

first-IsSound :
    {lost : List ℕ} (c c' : Client) (b : Batch) (bs : List Batch)
    → first_output c bs ≡ some (b, c')
    → IsSound c lost
    → IsSound c' lost
first-IsSound c c' b [] h i = cc
first-IsSound {lost} c c' b (b' ∷ bs) h i =
    let eq : record c { outputs = bs } ≡ c' = cc in
    subst (λ x. IsSound x lost) eq (record { futures = i.futures; quiet = i.quiet })

takes-IsSound :
    {lost : List ℕ} (c c' : Client) (b : Batch)
    → take_output c ≡ some (b, c')
    → IsSound c lost
    → IsSound c' lost
unfolding take_output
takes-IsSound c c' b h i = first-IsSound c c' b c.outputs h i

step-IsSound :
    {c c' : Client} {gone lost : List ℕ}
    → ClientStep c gone c'
    → IsSound c lost
    → IsSound c' (gone ++ lost)
unfolding end_add end_metrics cancel Names.without Dict.without
step-IsSound (ClientStep.adds c request_id prompt params s) i =
    adds-IsSound c request_id prompt params s i
step-IsSound (ClientStep.ends_add c request_id) i = record {
  futures = took_name-IsKept request_id i.futures;
  quiet = λ h. (ap (λ d. Names.without request_id d) (i.quiet h).0, (i.quiet h).1);
}
step-IsSound (ClientStep.cancels c f below) i = record {
  futures = settled-IsKept f Settling.cancelled below i.futures;
  quiet = i.quiet;
}
step-IsSound (ClientStep.aborts c request_id reason s) i = aborts-IsSound c request_id reason s i
step-IsSound (ClientStep.asks_metrics c s) i = asks-IsSound c s i
step-IsSound (ClientStep.ends_metrics c call_id own) i = record {
  futures = left_call-IsKept call_id own i.futures;
  quiet = λ h. ((i.quiet h).0, ap (λ d. Dict.without call_id d) (i.quiet h).1);
}
step-IsSound (ClientStep.handles c reply) i = handle-IsSound c reply i
step-IsSound (ClientStep.exits c) i = exits-IsSound c i
step-IsSound (ClientStep.shuts_down c) i = shuts_down-IsSound c i
step-IsSound (ClientStep.takes c c' b h) i = takes-IsSound c c' b h i

started-IsSound : IsSound started []
unfolding times is_done values Dict.get
started-IsSound = record {
  futures = record {
    once = λ f. omega arith;
    settled_below = λ f h. ground arith;
    adding_below = λ f h. ground arith;
    calls_below = λ f h. ground arith;
    keys_below = λ k f h. cc;
    kept = λ f h. absurd (omega (arith, h));
  };
  quiet = λ h. (refl, refl);
}

pub reached-IsSound : {c : Client} {lost : List ℕ} → Reached c lost → IsSound c lost
reached-IsSound Reached.starts = started-IsSound
reached-IsSound (Reached.steps c c' gone lost r s) = step-IsSound s (reached-IsSound r)

-- In whatever order calls, cancels, replies, sends that find no peer, a process exit and a shutdown
-- come, where a metrics call ends once its future is done: no future is settled twice; one that is not settled has an entry in `adding` or `calls`, or
-- is among those whose entry another add of the same request id, or another caller's cleanup, took
-- before they were done; and once the client is dead each future that there was, but for those, has
-- been settled exactly once.
pub dead_client_lem :
    {c : Client} {lost : List ℕ}
    → Reached c lost
    → (f : ℕ) → f < c.next_future
    → (times f c.settled ≤ 1)
      × ((times f c.settled ≡ 1) ⊎ (Waits c.adding c.calls f ⊎ (contains f lost ≡ true)))
      × (c.is_dead ≡ true → (times f c.settled ≡ 1) ⊎ (contains f lost ≡ true))
unfolding Names.get Dict.get
dead_client_lem {c} {lost} r f below =
    let i = reached-IsSound r in
    (
      i.futures.once f,
      elim (i.futures.kept f below) [
        | inl d ↦ inl (omega (arith, is_done-times f c.settled d, i.futures.once f))
        | inr w ↦ inr w
      ],
      λ gone. elim (i.futures.kept f below) [
        | inl d ↦ inl (omega (arith, is_done-times f c.settled d, i.futures.once f))
        | inr (inr l) ↦ inr l
        | inr (inl (inl (k, w))) ↦
            let e : Names.get k c.adding ≡ none = ap (λ d. Names.get k d) (i.quiet gone).0 in cc
        | inr (inl (inr (k, w))) ↦
            let e : Dict.get k c.calls ≡ none = ap (λ d. Dict.get k d) (i.quiet gone).1 in cc
      ],
    )
