-- ===== src/Deltas/Streams.antt =====
-- What the client gets, in terms of the text that the engine generated.
use mathlib.Core.List.{append_assoc, append-nil}
use mathlib.Core.Option.{some-ne-none}
use mathlib.Core.Path.{subst₂}
use lean_vllm.Prelude.{
  subst, arith, ℕ, ◌+◌, ◌≡◌, ◌≢◌, refl, sym, ap, ◌∙◌, ◌⊎◌, inl, inr, true, false, Option, none,
  some, List, [], ◌∷◌, ◌++◌, length, Bool-cases, String,
}
use lean_vllm.StopChecker.{StopChecker, push, flush, scan, is_nonempty}
use lean_vllm.StopChecker.Occurrence.{occurs_at}
use lean_vllm.StopChecker.Emission.{IsStreaming, IsStopped, push-Pushed}
use lean_vllm.Deltas.{
  RequestOutput, Delta, Ending, complete, aborted, refused, exhausted, client_reason, last_delta,
  text_delta, deltas, collect,
}

-- The text that a list of outputs carries.
abbrev pub generated : List RequestOutput → List ℕ
generated [] = []
generated (o ∷ os) = o.text ++ generated os

-- None of the outputs is the request's last.
abbrev pub AllGoOn : List RequestOutput → Type 0
AllGoOn [] = Unit {0}
AllGoOn (o ∷ os) = (o.finished ≡ false) × AllGoOn os

scan-stop : (c : StopChecker) (buffer : List ℕ) → (scan c buffer).1.stop ≡ c.stop
unfolding scan
scan-stop c buffer = ground arith

push-stop : (c : StopChecker) (more : List ℕ) → (push c more).1.stop ≡ c.stop
unfolding push
push-stop c more = elim (Bool-cases (is_nonempty c.stop)) [
  | inr off ↦ rw off refl
  | inl active ↦ rw active (scan-stop c (c.buffer ++ more))
]

collect-text_delta :
    (text : List ℕ) (n : ℕ) (ds : List Delta) → collect (text_delta text n ds) ≡ text ++ collect ds
unfolding collect text_delta
collect-text_delta [] n ds = refl
collect-text_delta (x ∷ text) n ds = refl

-- The outputs go on up to the last of them, which is `o`.
abbrev pub EndsAt : List RequestOutput → RequestOutput → List RequestOutput → Type 0
EndsAt before o used = AllGoOn before × (used ≡ before ++ o ∷ [])

-- What was yielded for the outputs, the first of which are used, after `emitted` of `text`.
pub record Streamed (c : StopChecker) (text emitted : List ℕ) (outputs : List RequestOutput)
    (yielded : List Delta × Ending) : Type 0 where
  pub used : List RequestOutput
  pub rest : List RequestOutput
  pub split : outputs ≡ used ++ rest
  pub checker : StopChecker
  pub same_stop : checker.stop ≡ c.stop
  pub outcome :
      -- the last output used is the first that finished, for a reason that clients know; all
      -- generated text was sent, and no stop string is in it
      ((yielded.1 ≡ complete)
        × (emitted ++ collect yielded.0 ≡ text ++ generated used)
        × ((i : ℕ) → occurs_at c.stop (text ++ generated used) i ≡ false)
        × (before : List RequestOutput) × (o : RequestOutput) × EndsAt before o used
        × (o.finished ≡ true)
        × (client_reason o.finish_reason ≢ none))
      -- the text before the first stop string was sent, which the last output used completes
      ⊎ (((yielded.1 ≡ aborted)
            × IsStopped checker (text ++ generated used) (emitted ++ collect yielded.0)
            × (before : List RequestOutput) × (o : RequestOutput) × EndsAt before o used)
          -- the last output used is the first that finished, for a reason that clients do not
          -- know; what was sent and what is held back are the text before it
          ⊎ (((yielded.1 ≡ refused)
                × (before : List RequestOutput) × (o : RequestOutput) × EndsAt before o used
                × (o.finished ≡ true)
                × (client_reason o.finish_reason ≡ none)
                × IsStreaming checker (text ++ generated before) (emitted ++ collect yielded.0))
              -- no output finished, and no stop string has come
              ⊎ ((yielded.1 ≡ exhausted)
                  × (rest ≡ [])
                  × AllGoOn used
                  × IsStreaming checker (text ++ generated used) (emitted ++ collect yielded.0))))

module _ (c : StopChecker) (n : ℕ) (o : RequestOutput) (os : List RequestOutput) where
  abbrev pushed : List ℕ × StopChecker
  pushed = push c o.text

  abbrev later_deltas : List Delta × Ending
  later_deltas = deltas pushed.1 (n + length o.token_ids) os

  deltas-aborted :
      pushed.1.matched ≡ true
      → deltas c n (o ∷ os) ≡ (
        record {
          text = pushed.0;
          finish_reason = some "stop";
          num_completion_tokens = n + length o.token_ids;
          kv_transfer_params = none;
        }
            ∷ [],
        aborted,
      )
  unfolding deltas
  deltas-aborted h = rw h refl

  deltas-last :
      pushed.1.matched ≡ false
      → o.finished ≡ true
      → deltas c n (o ∷ os)
        ≡ last_delta
            (client_reason o.finish_reason)
            (pushed.0 ++ (flush pushed.1).0)
            (n + length o.token_ids)
            o
  unfolding deltas
  deltas-last h last = rw (h, last) refl

  deltas-more :
      pushed.1.matched ≡ false
      → o.finished ≡ false
      → deltas c n (o ∷ os)
        ≡ (text_delta pushed.0 (n + length o.token_ids) later_deltas.0, later_deltas.1)
  unfolding deltas
  deltas-more h more = rw (h, more) refl

module _ (c : StopChecker) (text emitted : List ℕ) (n : ℕ) (o : RequestOutput)
    (os : List RequestOutput) (v : IsStreaming c text emitted)
    (going : IsStreaming (push c o.text).1 (text ++ o.text) (emitted ++ (push c o.text).0)) where
  -- The output is the last one.
  last-Streamed :
      (reason : Option String) (n' : ℕ)
      → client_reason o.finish_reason ≡ reason
      → o.finished ≡ true
      → Streamed c text emitted
          (o ∷ os)
          (last_delta reason ((push c o.text).0 ++ (flush (push c o.text).1).0) n' o)
  unfolding last_delta collect flush
  last-Streamed none n' unknown last = record {
    used = o ∷ [];
    rest = os;
    split = refl;
    checker = c;
    same_stop = refl;
    outcome =
        inr (inr (inl (refl, [], o, (tt, refl), last, unknown, rw (append-nil, append-nil) v)));
  }
  last-Streamed (some reason) n' known last = record {
    used = o ∷ [];
    rest = os;
    split = refl;
    checker = (push c o.text).1;
    same_stop = push-stop c o.text;
    outcome = inl (
      refl,
      ap (◌++◌ emitted) (append-nil _)
          ∙ sym (append_assoc emitted _ _)
          ∙ going.whole
          ∙ ap (◌++◌ text) (sym (append-nil o.text)),
      λ i.
          subst₂ (λ st t. occurs_at st t i ≡ false) (push-stop c o.text)
            (ap (◌++◌ text) (sym (append-nil o.text))) (going.clean i),
      [],
      o,
      (tt, refl),
      last,
      λ unknown. some-ne-none reason (sym known ∙ unknown),
    );
  }

  -- The outputs after it are yielded in turn.
  more-Streamed :
      (n' : ℕ) (yielded : List Delta × Ending)
      → o.finished ≡ false
      → Streamed (push c o.text).1 (text ++ o.text) (emitted ++ (push c o.text).0) os yielded
      → Streamed c text emitted (o ∷ os) (text_delta (push c o.text).0 n' yielded.0, yielded.1)
  more-Streamed n' yielded goes_on k =
      let eg : (text ++ o.text) ++ generated k.used ≡ text ++ (o.text ++ generated k.used) =
        append_assoc text o.text (generated k.used) in
      let ec : (emitted ++ (push c o.text).0) ++ collect yielded.0
          ≡ emitted ++ collect (text_delta (push c o.text).0 n' yielded.0) =
        append_assoc emitted _ _ ∙ ap (◌++◌ emitted) (sym (collect-text_delta _ n' yielded.0)) in
      record {
        used = o ∷ k.used;
        rest = k.rest;
        split = ap (◌∷◌ o) k.split;
        checker = k.checker;
        same_stop = k.same_stop ∙ push-stop c o.text;
        outcome = elim k.outcome [
          | inl (e, sent, clean, before, last, (go_on, used), finished, known) ↦ inl (
            e,
            sym ec ∙ sent ∙ eg,
            λ i. subst₂ (λ st t. occurs_at st t i ≡ false) (push-stop c o.text) eg (clean i),
            o ∷ before,
            last,
            ((goes_on, go_on), ap (◌∷◌ o) used),
            finished,
            known,
          )
          | inr (inl (e, stopped, before, last, (go_on, used))) ↦ inr (
              inl (
                e,
                subst₂ (IsStopped k.checker) eg ec stopped,
                o ∷ before,
                last,
                ((goes_on, go_on), ap (◌∷◌ o) used),
              ))
          | inr (inr (inl (e, before, last, (go_on, used), finished, unknown, open_end))) ↦ inr (
              inr (
                inl (
                  e,
                  o ∷ before,
                  last,
                  ((goes_on, go_on), ap (◌∷◌ o) used),
                  finished,
                  unknown,
                  subst₂ (IsStreaming k.checker) (append_assoc text o.text (generated before)) ec
                      open_end,
                )))
          | inr (inr (inr (e, r, go_on, open_end))) ↦
              inr
                (inr (inr (e, r, (goes_on, go_on), subst₂ (IsStreaming k.checker) eg ec open_end)))
        ];
      }

-- Whatever the engine yields, to a checker whose emitted and held text is the text so far with no
-- stop string in it. Either an output completes the first stop string: the request is aborted, and
-- the client has got the text before that. Or the first output that finishes has a reason that
-- clients know: the request completes, the client has got all the generated text, and no stop string
-- is in it. Or that reason is unknown to clients: the request is refused, and what was sent and what
-- is held back are the text of the outputs before. Or no output finishes: what was sent and what is
-- held back are the generated text.
pub deltas_lem :
    (outputs : List RequestOutput) (c : StopChecker) (text emitted : List ℕ) (n : ℕ)
    → IsStreaming c text emitted
    → Streamed c text emitted outputs (deltas c n outputs)
unfolding deltas collect
deltas_lem [] c text emitted n v = record {
  used = [];
  rest = [];
  split = refl;
  checker = c;
  same_stop = refl;
  outcome = inr (inr (inr (refl, refl, tt, rw (append-nil, append-nil) v)));
}
deltas_lem (o ∷ os) c text emitted n v = elim (push-Pushed c text emitted o.text v) [
  | inr stopped ↦
      subst (Streamed c text emitted (o ∷ os)) (sym (deltas-aborted c n o os stopped.matched))
        (record {
          used = o ∷ [];
          rest = os;
          split = refl;
          checker = (push c o.text).1;
          same_stop = push-stop c o.text;
          outcome = inr (inl (refl, rw (append-nil, append-nil) stopped, [], o, (tt, refl)));
        })
  | inl going ↦ elim (Bool-cases o.finished) [
    | inl last ↦
        subst (Streamed c text emitted (o ∷ os)) (sym (deltas-last c n o os going.unmatched last)) (
          last-Streamed c text emitted n o os v going (client_reason o.finish_reason)
            (n + length o.token_ids) refl last)
    | inr more ↦
        subst (Streamed c text emitted (o ∷ os)) (sym (deltas-more c n o os going.unmatched more)) (
          more-Streamed c text emitted n o os v going (n + length o.token_ids) _ more (
            deltas_lem os (push c o.text).1 (text ++ o.text) (emitted ++ (push c o.text).0)
              (n + length o.token_ids) going))
  ]
]
