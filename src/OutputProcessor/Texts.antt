-- ===== src/OutputProcessor/Texts.antt =====
-- An output gets its text and goes to its request's stream.
use lean_vllm.Prelude.{
  ℕ, ◌≡◌, ap, ◌∙◌, inl, inr, String, str_eq_iff, Bool, true, false, none, some, List, [], ◌∷◌, ◌++◌,
  arith, Bool-cases, ◌⊎◌,
}
use lean_vllm.Prelude.Names
use lean_vllm.Deltas.{RequestOutput}
use lean_vllm.OutputProcessor.{
  Decoded, RequestState, OutputProcessor, output, returned, read, queue, put, decode_all,
  process_output,
}
use lean_vllm.OutputProcessor.Readers.{
  is_open, is_open-append, outputs_of, queue-put_self, read-open,
}

-- An output with its text, for a request with a stream and a detokenizer.
module _ {S : Type 0} (fresh : List ℕ → Bool → S) (restarted : S → S) (step : S → ℕ → Decoded S)
    (p : OutputProcessor S) (request_id : String) (state : RequestState S) (n : ℕ) (s s' : S)
    (o : RequestOutput) (text : List ℕ) (known : Names.get request_id p.request_states ≡ some state)
    (streams : state.stream ≡ some n) (decodes : state.detokenizer ≡ some s)
    (decoded_all : decode_all fresh restarted step s o.token_ids ≡ some (s', text))
    (still_open : is_open (queue p n) ≡ true) where
  abbrev texted : RequestOutput
  texted = record o { text = text }

  -- Take a live request with a stream that nothing has ended, whose detokenizer turns the tokens of
  -- an output into text. process_output puts the output with that text at the end of the stream
  -- and returns nothing for it. If it is finished, the request is unknown afterwards, and the reader
  -- gets all outputs up to it and returns; if not, the request has the detokenizer's new state and
  -- nothing has ended its stream.
  pub process_output_lem :
      (p' : OutputProcessor S) × (process_output fresh restarted step p request_id o
        ≡ some (p', []))
      × (queue p' n ≡ queue p n ++ output texted ∷ [])
      × (((o.finished ≡ true)
            × (Names.get request_id p'.request_states ≡ none)
            × (read (queue p' n) ≡ (outputs_of (queue p n) ++ texted ∷ [], returned)))
          ⊎ ((o.finished ≡ false)
              × (Names.get request_id p'.request_states
                  ≡ some (record state { detokenizer = some s' }))
              × (is_open (queue p' n) ≡ true)))
  unfolding process_output
  process_output_lem = elim (Bool-cases o.finished) [
    | inl last ↦
        let p1 : OutputProcessor S = record p {
          request_states = Names.without request_id p.request_states;
        } in
        let q = queue-put_self p1 n (output texted) in
        (
          put p1 (some n) (output texted),
          simp (known, decodes, decoded_all, last, streams),
          q,
          inl (
            last,
            unfold put in
                Names.get-without request_id request_id p.request_states
                ∙ ground (arith, str_eq_iff request_id request_id),
            ap read q
                ∙ read-open (queue p n) (output texted ∷ []) still_open
                ∙ (unfold read in simp last),
          ),
        )
    | inr more ↦
        let next : RequestState S = record state { detokenizer = some s' } in
        let p1 : OutputProcessor S = record p {
          request_states = Names.put request_id next p.request_states;
        } in
        let q = queue-put_self p1 n (output texted) in
        (
          put p1 (some n) (output texted),
          simp (known, decodes, decoded_all, more, streams),
          q,
          inr (
            more,
            unfold put in
                Names.get-put request_id request_id next p.request_states
                ∙ ground (arith, str_eq_iff request_id request_id),
            ap is_open q ∙ is_open-append (queue p n) texted still_open more,
          ),
        )
  ]
