-- ===== src/OutputProcessor/Readers.antt =====
-- What the readers of the streams get as outputs are processed, a request is aborted, or the engine
-- fails.
use lean_vllm.Prelude.{
  ℕ, ◌≡◌, refl, sym, ap, ◌∙◌, inl, inr, String, str_eq, str_eq_iff, Bool, true, false, not, ◌&&◌,
  Option, none, some, List, [], ◌∷◌, ◌++◌, if◌then◌else◌, ◌==◌, arith, Bool-cases, Option-cases,
}
use mathlib.Core.Option.{some-injective}
use mathlib.Core.List.{append_assoc, append-nil}
use lean_vllm.Prelude.Dict
use lean_vllm.Prelude.Names
use lean_vllm.Deltas.{RequestOutput}
use lean_vllm.OutputProcessor.{
  Item, Reading, RequestState, OutputProcessor, output, failure, returned, raised, before, items_of,
  read, queue, put, final_output, stream_of, abort_request, fail_each, fail_all,
}

-- Nothing in the queue ends the reader.
abbrev pub is_open : List Item → Bool
is_open [] = true
is_open (failure ∷ items) = false
is_open (output o ∷ items) = not o.finished && is_open items

abbrev pub outputs_of : List Item → List RequestOutput
outputs_of [] = []
outputs_of (failure ∷ items) = outputs_of items
outputs_of (output o ∷ items) = o ∷ outputs_of items

abbrev after : List RequestOutput → List RequestOutput × Reading → List RequestOutput × Reading
after os rest = (os ++ rest.0, rest.1)

pub read-open :
    (q items : List Item) → is_open q ≡ true → read (q ++ items) ≡ after (outputs_of q) (read items)
unfolding read
read-open [] items h = refl
read-open (failure ∷ q) items h = absurd cc
read-open (output o ∷ q) items h =
    let unfinished : o.finished ≡ false = ground arith in
    let rest : is_open q ≡ true = ground arith in
    simp unfinished (ap (before o) (read-open q items rest))

pub is_open-append :
    (q : List Item) (o : RequestOutput)
    → is_open q ≡ true
    → o.finished ≡ false
    → is_open (q ++ output o ∷ []) ≡ true
is_open-append [] o h g = simp g
is_open-append (failure ∷ q) o h g = absurd cc
is_open-append (output x ∷ q) o h g =
    let unfinished : x.finished ≡ false = ground arith in
    let rest : is_open q ≡ true = ground arith in simp unfinished (is_open-append q o rest g)

abbrev failure_for : ℕ → Option ℕ → List Item → List Item
failure_for n none items = items
failure_for n (some m) items = if m == n then failure ∷ items else items

module _ {S : Type 0} where
  pub queue-put_self :
      (p : OutputProcessor S) (n : ℕ) (item : Item)
      → queue (put p (some n) item) n ≡ queue p n ++ item ∷ []
  unfolding put
  queue-put_self p n item =
      let items = queue p n ++ item ∷ [] in
      let e : Dict.get n (Dict.put n items p.streams) ≡ some items =
        Dict.get-put n n items p.streams ∙ ground arith in
      ap items_of e

  queue-put_other :
      (p : OutputProcessor S) (n m : ℕ) (item : Item)
      → n == m ≡ false
      → queue (put p (some n) item) m ≡ queue p m
  unfolding put
  queue-put_other p n m item other =
      let items = queue p n ++ item ∷ [] in
      let e : Dict.get m (Dict.put n items p.streams) ≡ Dict.get m p.streams =
        Dict.get-put n m items p.streams ∙ simp other in
      ap items_of e

  -- Take a live request with a stream that nothing has ended. After abort_request the request is
  -- unknown, and the reader of the stream gets its outputs, then a last one with the reason "abort",
  -- and returns.
  pub abort_request_lem :
      (p : OutputProcessor S) (request_id : String) (state : RequestState S) (n : ℕ)
      → Names.get request_id p.request_states ≡ some state
      → state.stream ≡ some n
      → is_open (queue p n) ≡ true
      → (Names.get request_id (abort_request p request_id).0.request_states ≡ none)
        × (read (queue (abort_request p request_id).0 n)
            ≡ (outputs_of (queue p n) ++ final_output "abort" ∷ [], returned))
  unfolding abort_request
  abort_request_lem p request_id state n known streams still_open =
      let e : stream_of (Names.get request_id p.request_states) ≡ some n =
        ap stream_of known ∙ streams in
      let p1 : OutputProcessor S = record p {
        request_states = Names.without request_id p.request_states;
      } in
      let last = output (final_output "abort") in
      let gone : Names.get request_id (put p1 (some n) last).request_states ≡ none =
        unfold put in
        Names.get-without request_id request_id p.request_states
        ∙ ground (arith, str_eq_iff request_id request_id) in
      let reads : read (queue (put p1 (some n) last) n)
          ≡ (outputs_of (queue p n) ++ final_output "abort" ∷ [], returned) =
        ap read (queue-put_self p1 n last)
        ∙ read-open (queue p n) (last ∷ []) still_open
        ∙ (unfold read in refl) in
      (
        ap (λ o. Names.get request_id (put p1 o last).request_states) e ∙ gone,
        ap (λ o. read (queue (put p1 o last) n)) e ∙ reads,
      )

  -- The failures that a stream gets, one for each request that names it.
  abbrev failures : ℕ → List (String × RequestState S) → List Item
  failures n [] = []
  failures n ((_, state) ∷ states) = failure_for n state.stream (failures n states)

  queue-put-failure :
      (p : OutputProcessor S) (stream : Option ℕ) (n : ℕ) (items : List Item)
      → queue (put p stream failure) n ++ items ≡ queue p n ++ failure_for n stream items
  unfolding put
  queue-put-failure p none n items = refl
  queue-put-failure p (some m) n items = elim (Bool-cases (m == n)) [
    | inl here ↦
        let e : m ≡ n = ground arith in
        let q : queue (put p (some m) failure) n ≡ queue p n ++ failure ∷ [] =
          ap (λ k. queue (put p (some k) failure) n) e ∙ queue-put_self p n failure in
        simp here (ap (λ q'. q' ++ items) q ∙ append_assoc (queue p n) (failure ∷ []) items)
    | inr other ↦ simp other (ap (λ q'. q' ++ items) (queue-put_other p m n failure other))
  ]

  queue-fail_each :
      (p : OutputProcessor S) (states : List (String × RequestState S)) (n : ℕ)
      → queue (fail_each p states) n ≡ queue p n ++ failures n states
  unfolding fail_each
  queue-fail_each p [] n = sym (append-nil (queue p n))
  queue-fail_each p ((request_id, state) ∷ states) n =
      queue-fail_each (put p state.stream failure) states n
      ∙ queue-put-failure p state.stream n (failures n states)

  fails :
      (states : List (String × RequestState S)) (request_id : String) (state : RequestState S)
      (n : ℕ)
      → Names.get request_id states ≡ some state
      → state.stream ≡ some n
      → (rest : List Item) × (failures n states ≡ failure ∷ rest)
  unfolding Names.get
  fails [] request_id state n known streams = absurd cc
  fails ((other_id, other) ∷ states) request_id state n known streams =
      elim (Bool-cases (str_eq other_id request_id)) [
        | inl here ↦
            let e : other ≡ state = some-injective _ _ (sym (simp here refl) ∙ known) in
            let e' : other.stream ≡ some n = ap (λ t. t.stream) e ∙ streams in
            (failures n states, ap (λ o. failure_for n o (failures n states)) e' ∙ ground arith)
        | inr there ↦
            let (rest, found) = fails states request_id state n (ground arith) streams in
            elim (Option-cases other.stream) [
              | inl silent ↦ (rest, ap (λ o. failure_for n o (failures n states)) silent ∙ found)
              | inr (m, streamed) ↦ elim (Bool-cases (m == n)) [
                | inl same ↦ (
                  failures n states,
                  ap (λ o. failure_for n o (failures n states)) streamed ∙ simp same,
                )
                | inr differs ↦ (
                  rest,
                  ap (λ o. failure_for n o (failures n states)) streamed ∙ simp differs found,
                )
              ]
            ]
      ]

  streams_kept :
      (p : OutputProcessor S) (states : List (String × RequestState S))
      → (fail_each p states).request_states ≡ p.request_states
  unfolding fail_each put
  streams_kept p [] = refl
  streams_kept p ((_, state) ∷ states) = elim (Option-cases state.stream) [
    | inl silent ↦
        streams_kept (put p state.stream failure) states
        ∙ ap (λ o. (put p o failure).request_states) silent
    | inr (m, streamed) ↦
        streams_kept (put p state.stream failure) states
        ∙ ap (λ o. (put p o failure).request_states) streamed
  ]

  -- After fail_all no request is known, and the reader of each live stream that nothing has ended
  -- gets its outputs and raises.
  pub fail_all_lem :
      (p : OutputProcessor S) (request_id : String) (state : RequestState S) (n : ℕ)
      → Names.get request_id p.request_states ≡ some state
      → state.stream ≡ some n
      → is_open (queue p n) ≡ true
      → ((fail_all p).request_states ≡ [])
        × (read (queue (fail_all p) n) ≡ (outputs_of (queue p n), raised))
  unfolding fail_all read
  fail_all_lem p request_id state n known streams still_open =
      let p1 : OutputProcessor S = record p { request_states = [] } in
      let (rest, found) = fails p.request_states request_id state n known streams in
      (
        streams_kept p1 p.request_states,
        ap read (queue-fail_each p1 p.request_states n ∙ ap (λ f. queue p n ++ f) found)
            ∙ read-open (queue p n) (failure ∷ rest) still_open
            ∙ ap (λ os. (os, raised)) (append-nil (outputs_of (queue p n))),
      )
