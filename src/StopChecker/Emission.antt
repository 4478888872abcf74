-- ===== src/StopChecker/Emission.antt =====
-- What a stream of pushes emits, in terms of the whole text that was pushed.
use mathlib.Core.Bool.{true≢false}
use mathlib.Core.List.{append_assoc, append-nil}
use native.Mathlib.Decide.{dec_lt, dec_le}
use lean_vllm.Prelude.{
  ℕ, zero, suc, ◌+◌, ◌-◌, ◌≤◌, ◌<◌, ◌≡◌, refl, sym, ap, ◌∙◌, ◌⊎◌, inl, inr, true, false, none, some,
  List, [], ◌∷◌, ◌++◌, arith, ◌==◌, length, take, length-append, length-drop, length-take,
  take-append-drop, Option-cases, Bool-cases, min, subst,
}
use lean_vllm.StopChecker.{
  StopChecker, is_nonempty, nonempty, find_first, max_length, create, scan, push, flush, all_but,
  last_of, starts_with,
}
use lean_vllm.StopChecker.Occurrence.{
  occurs_at, Least, find_first-Least, occurs_at-append_left, occurs_at-append_right, drop-nil,
}

-- No stop string was found yet: what was emitted and what is held back are the text so far, no stop
-- string occurs in it, and enough is held back for one that starts in the held part.
pub record IsStreaming (c : StopChecker) (text emitted : List ℕ) : Type 0 where
  pub whole : emitted ++ c.buffer ≡ text
  pub clean : (i : ℕ) → occurs_at c.stop text i ≡ false
  pub kept : (length emitted ≡ 0) ⊎ (c.hold ≤ length c.buffer)
  pub enough : max_length c.stop ≤ c.hold + 1
  -- with no stop string nothing is held back
  pub idle : is_nonempty c.stop ≡ false → (c.buffer ≡ []) × (c.hold ≡ 0)
  pub unmatched : c.matched ≡ false

-- A stop string was found: what was emitted is the text before the first position at which one
-- occurs.
pub record IsStopped (c : StopChecker) (text emitted : List ℕ) : Type 0 where
  pub cut : ℕ
  pub before : emitted ≡ take cut text
  pub occurs : occurs_at c.stop text cut ≡ true
  pub first : (i : ℕ) → i < cut → occurs_at c.stop text i ≡ false
  pub matched : c.matched ≡ true
  pub empty : c.buffer ≡ []

never_occurs :
    (stop : List (List ℕ)) (text : List ℕ) (i : ℕ)
    → is_nonempty stop ≡ false
    → occurs_at stop text i ≡ false
unfolding occurs_at
never_occurs [] text i h = refl
never_occurs (s ∷ stop) text i h = cc

no_hold : (stop : List (List ℕ)) → is_nonempty stop ≡ false → max_length stop - 1 ≡ 0
unfolding max_length
no_hold [] h = refl
no_hold (s ∷ stop) h = cc

take-append_right :
    (xs ys : List ℕ) (i j : ℕ) → i ≡ length xs + j → take i (xs ++ ys) ≡ xs ++ take j ys
take-append_right [] ys i j h = let e : i ≡ j = omega arith in ap (λ k. take k ys) e
take-append_right (x ∷ xs) ys zero j h = absurd (omega arith)
take-append_right (x ∷ xs) ys (suc i) j h = ap (◌∷◌ x) (take-append_right xs ys i j (omega arith))

module _ (c : StopChecker) (text emitted more : List ℕ) (v : IsStreaming c text emitted) where
  all_text : text ++ more ≡ emitted ++ (c.buffer ++ more)
  all_text = rw (← v.whole) (append_assoc emitted c.buffer more)

  -- A stop string that starts in what was emitted would have ended in the old text.
  none_before : (i : ℕ) → i < length emitted → occurs_at c.stop (text ++ more) i ≡ false
  none_before i h =
      occurs_at-append_left c.stop text more i
        (omega (arith, v.kept, v.enough, ap length v.whole, length-append emitted c.buffer))
      ∙ v.clean i

  -- From the end of what was emitted, positions are those in the buffer.
  in_buffer :
      (i j : ℕ)
      → i ≡ length emitted + j
      → occurs_at c.stop (text ++ more) i ≡ occurs_at c.stop (c.buffer ++ more) j
  in_buffer i j h =
      ap (λ t. occurs_at c.stop t i) all_text
      ∙ occurs_at-append_right c.stop emitted (c.buffer ++ more) i j h

  found-IsStopped :
      (k : ℕ)
      → Least (occurs_at c.stop (c.buffer ++ more)) (some k)
      → IsStopped
          (record c { matched = true; buffer = [] })
          (text ++ more)
          (emitted ++ take k (c.buffer ++ more))
  found-IsStopped k l = record {
    cut = length emitted + k;
    before =
        sym (take-append_right emitted (c.buffer ++ more) (length emitted + k) k refl)
        ∙ ap (take (length emitted + k)) (sym all_text);
    occurs = in_buffer (length emitted + k) k refl ∙ l.0;
    first = λ i h. elim (dec_lt i (length emitted)) [
      | yes early ↦ none_before i early
      | no late ↦
          in_buffer i (i - length emitted) (omega arith) ∙ l.1 (i - length emitted) (omega arith)
    ];
    matched = refl;
    empty = refl;
  }

  still_clean :
      Least (occurs_at c.stop (c.buffer ++ more)) none
      → (i : ℕ) → occurs_at c.stop (text ++ more) i ≡ false
  still_clean l i = elim (dec_lt i (length emitted)) [
    | yes early ↦ none_before i early
    | no late ↦ in_buffer i (i - length emitted) (omega arith) ∙ l (i - length emitted)
  ]

  kept_enough :
      (out rest : List ℕ)
      → out ≡ all_but c.hold (c.buffer ++ more)
      → rest ≡ last_of c.hold (c.buffer ++ more)
      → (length (emitted ++ out) ≡ 0) ⊎ (c.hold ≤ length rest)
  kept_enough out rest e r =
      let size : ℕ = length (c.buffer ++ more) in
      let out_size : length out ≡ min (size - c.hold) size =
        ap length e ∙ length-take (size - c.hold) (c.buffer ++ more) in
      let rest_size : length rest ≡ size - (size - c.hold) =
        ap length r ∙ length-drop (size - c.hold) (c.buffer ++ more) in
      elim (dec_le c.hold size) [
        | yes long ↦ inr (omega arith)
        | no short ↦
            inl (omega (arith, v.kept, length-append emitted out, length-append c.buffer more))
      ]

  held-IsStreaming :
      is_nonempty c.stop ≡ true
      → (out rest : List ℕ) → out ++ rest ≡ c.buffer ++ more
      → (length (emitted ++ out) ≡ 0) ⊎ (c.hold ≤ length rest)
      → Least (occurs_at c.stop (c.buffer ++ more)) none
      → IsStreaming (record c { buffer = rest }) (text ++ more) (emitted ++ out)
  held-IsStreaming active out rest e k l = record {
    whole = append_assoc emitted out rest ∙ ap (◌++◌ emitted) e ∙ sym all_text;
    clean = still_clean l;
    kept = k;
    enough = v.enough;
    idle = λ off. absurd (true≢false (sym active ∙ off));
    unmatched = v.unmatched;
  }

  abbrev Pushed : List ℕ × StopChecker → Type 0
  Pushed (out, c') =
      IsStreaming c' (text ++ more) (emitted ++ out) ⊎ IsStopped c' (text ++ more) (emitted ++ out)

  scan-Pushed :
      is_nonempty c.stop ≡ true
      → (r : List ℕ × StopChecker) → scan c (c.buffer ++ more) ≡ r
      → Pushed r
  unfolding scan
  scan-Pushed active r e = elim (Option-cases (find_first c.stop (c.buffer ++ more))) [
    | inr (k, found) ↦ subst Pushed (ground arith) (
        inr (
          found-IsStopped k (
            subst (Least (occurs_at c.stop (c.buffer ++ more))) found
              (find_first-Least c.stop (c.buffer ++ more)))))
    | inl absent ↦
        let l : Least (occurs_at c.stop (c.buffer ++ more)) none =
          subst (Least (occurs_at c.stop (c.buffer ++ more))) absent
            (find_first-Least c.stop (c.buffer ++ more)) in
        elim (Bool-cases (c.hold == 0)) [
          | inl all ↦ subst Pushed (ground arith) (
              inl (
                held-IsStreaming active (c.buffer ++ more) [] (append-nil _) (inr (ground arith))
                  l))
          | inr some_held ↦ subst Pushed (ground arith) (
              inl (
                held-IsStreaming active (all_but c.hold (c.buffer ++ more))
                  (last_of c.hold (c.buffer ++ more)) (take-append-drop _ (c.buffer ++ more))
                  (kept_enough _ _ refl refl) l))
        ]
  ]

  silent-IsStreaming : is_nonempty c.stop ≡ false → IsStreaming c (text ++ more) (emitted ++ more)
  silent-IsStreaming off =
      let (drained, hold) = v.idle off in
      record {
        whole =
            append_assoc emitted more c.buffer
            ∙ ap (λ b. emitted ++ (more ++ b)) drained
            ∙ ap (◌++◌ emitted) (append-nil more ∙ ap (λ b. b ++ more) (sym drained))
            ∙ sym all_text;
        clean = λ i. never_occurs c.stop (text ++ more) i off;
        kept = inr (omega arith);
        enough = v.enough;
        idle = λ _. (drained, hold);
        unmatched = v.unmatched;
      }

  -- On a checker whose emitted and held text is the text so far, with no stop string in it, a push
  -- gives one of two results. Either that holds again of the longer text, or a stop string has
  -- shown up: then all that was emitted is the text before the first position at which one occurs.
  pub push-Pushed :
      IsStreaming (push c more).1 (text ++ more) (emitted ++ (push c more).0)
      ⊎ IsStopped (push c more).1 (text ++ more) (emitted ++ (push c more).0)
  unfolding push
  push-Pushed = elim (Bool-cases (is_nonempty c.stop)) [
    | inl active ↦ rw active (scan-Pushed active (scan c (c.buffer ++ more)) refl)
    | inr off ↦ rw off (inl (silent-IsStreaming off))
  ]

occurs_at-nonempty : (stop : List (List ℕ)) (i : ℕ) → occurs_at (nonempty stop) [] i ≡ false
unfolding nonempty occurs_at starts_with
occurs_at-nonempty [] i = refl
occurs_at-nonempty ([] ∷ stop) i = occurs_at-nonempty stop i
occurs_at-nonempty ((c ∷ s) ∷ stop) i = rw drop-nil (occurs_at-nonempty stop i)

-- A new checker has emitted nothing of the empty text.
pub create-IsStreaming : (stop : List (List ℕ)) → IsStreaming (create stop) [] []
unfolding create
create-IsStreaming stop = record {
  whole = refl;
  clean = occurs_at-nonempty stop;
  kept = inl refl;
  enough = omega arith;
  idle = λ off. (refl, no_hold (nonempty stop) off);
  unmatched = refl;
}

-- When generation ends, the flush emits what was held back: all text is out.
pub flush_lem :
    (c : StopChecker) (text emitted : List ℕ)
    → IsStreaming c text emitted
    → (emitted ++ (flush c).0 ≡ text) × ((flush c).1.buffer ≡ [])
unfolding flush
flush_lem c text emitted v = (v.whole, refl)
