-- ===== src/ModelRunner/Agreement.antt =====
-- What prepare_batch (lean_vllm/engine/model_runner.py) reads of a sequence, and that a worker has it
-- from the pickled state (lean_vllm/engine/sequence.py).
use mathlib.Core.Option.{some-injective}
use lean_vllm.Prelude.{
  ℕ, ◌+◌, ◌≡◌, refl, sym, ap, subst, Bool, true, false, some, List, [], ◌∷◌, ◌++◌, map,
  Option-cases, ◌==◌, if◌then◌else◌, length, >>=-eq-some, get_last?, Bool-cases, inl, inr,
}
use lean_vllm.Prelude.Dict
use lean_vllm.Sequence.{Sequence}
use lean_vllm.Sequence.Pickled.{tokens, token, getstate, setstate, receive, restored_tokens}
use lean_vllm.ModelRunner.Batch.{
  LastStep, BatchTokens, draft_count, sampling_from, some_row, prev_row, moved_from, gather_tokens,
  add_chunk, add_decode, with_drafts,
}

-- What prepare_batch reads of a sequence; of a decoding one, no token but the last.
pub record Agrees (s s' : Sequence) : Type 0 where
  pub seq_id : s'.seq_id ≡ s.seq_id
  pub num_tokens : s'.num_tokens ≡ s.num_tokens
  pub cached : s'.num_cached_tokens ≡ s.num_cached_tokens
  pub scheduled : s'.num_scheduled_tokens ≡ s.num_scheduled_tokens
  pub pending : s'.num_pending_tokens ≡ s.num_pending_tokens
  pub prefill : s'.is_prefill ≡ s.is_prefill
  pub table : s'.block_table ≡ s.block_table
  pub drafts : s'.spec_token_ids ≡ s.spec_token_ids
  pub all_tokens : s.is_prefill ≡ true → s'.token_ids ≡ s.token_ids
  pub last : s.is_prefill ≡ false → s'.last_token ≡ s.last_token

pub restored-tokens :
    (xs : List ℕ) (r : List ℕ × ℕ) → restored_tokens (tokens xs) ≡ some r → r.0 ≡ xs
restored-tokens xs r h =
    let (last, e, eq) = >>=-eq-some (get_last? xs) _ h in
    sym (ap (λ x. x.0) (some-injective _ _ eq))

pub restored-token : (t : ℕ) (r : List ℕ × ℕ) → restored_tokens (token t) ≡ some r → r.1 ≡ t
restored-token t r h = sym (ap (λ x. x.1) (some-injective _ _ h))

pub setstate-Agrees : (unset s s' : Sequence) → setstate unset (getstate s) ≡ some s' → Agrees s s'
unfolding setstate getstate
setstate-Agrees unset s s' h =
    let state = if s.is_prefill then tokens s.token_ids else token s.last_token in
    let (r, e, eq) = >>=-eq-some (restored_tokens state) _ h in
    subst (λ x. Agrees s x) (some-injective _ _ eq)
      (record {
        seq_id = refl;
        num_tokens = refl;
        cached = refl;
        scheduled = refl;
        pending = refl;
        prefill = refl;
        table = refl;
        drafts = refl;
        all_tokens = λ pre. restored-tokens s.token_ids r (simp pre at e);
        last = λ dec. restored-token s.last_token r (simp dec at e);
      })

-- The sequences of two lists agree one by one.
pub data AllAgree : List Sequence → List Sequence → Type 0 where
  nobody : AllAgree [] []
  also :
      {s s' : Sequence} {seqs seqs' : List Sequence}
      → Agrees s s'
      → AllAgree seqs seqs'
      → AllAgree (s ∷ seqs) (s' ∷ seqs')

pub receive-AllAgree :
    (unset : Sequence) (seqs seqs' : List Sequence)
    → receive unset seqs ≡ some seqs'
    → AllAgree seqs seqs'
unfolding receive
receive-AllAgree unset [] [] h = AllAgree.nobody
receive-AllAgree unset [] (s' ∷ seqs') h = absurd cc
receive-AllAgree unset (s ∷ seqs) seqs' h =
    let (s1, e, h1) = >>=-eq-some (setstate unset (getstate s)) _ h in
    let (rest, e2, eq) = >>=-eq-some (receive unset seqs) _ h1 in
    subst (λ x. AllAgree (s ∷ seqs) x) (some-injective _ _ eq)
      (AllAgree.also (setstate-Agrees unset s s1 e) (receive-AllAgree unset seqs rest e2))

pub map-agree :
    {seqs seqs' : List Sequence} {B : Type 0} (f : Sequence → B)
    → ((s s' : Sequence) → Agrees s s' → f s' ≡ f s)
    → AllAgree seqs seqs'
    → map f seqs' ≡ map f seqs
map-agree f g AllAgree.nobody = refl
map-agree f g (AllAgree.also {s} {s'} a as') = let head = g s s' a in simp (head, map-agree f g as')

pub some_row-agree :
    {seqs seqs' : List Sequence} (f : Sequence → Bool)
    → ((s s' : Sequence) → Agrees s s' → f s' ≡ f s)
    → AllAgree seqs seqs'
    → some_row f seqs' ≡ some_row f seqs
unfolding some_row
some_row-agree f g AllAgree.nobody = refl
some_row-agree f g (AllAgree.also {s} {s'} a rest) =
    let head = g s s' a in simp (head, some_row-agree f g rest)

pub draft_count-agree : (s s' : Sequence) → Agrees s s' → draft_count s' ≡ draft_count s
unfolding draft_count
draft_count-agree s s' a = simp (a.prefill, a.scheduled)

pub sampling-agree :
    {seqs seqs' : List Sequence} (i : ℕ)
    → AllAgree seqs seqs'
    → sampling_from i seqs' ≡ sampling_from i seqs
unfolding sampling_from
sampling-agree i AllAgree.nobody = refl
sampling-agree i (AllAgree.also {s} {s'} a rest) =
    simp (a.num_tokens, a.pending, a.cached, a.scheduled, sampling-agree (i + 1) rest)

pub moved-agree :
    {seqs seqs' : List Sequence} (last : LastStep) (i : ℕ)
    → AllAgree seqs seqs'
    → moved_from last i seqs' ≡ moved_from last i seqs
unfolding moved_from prev_row
moved-agree last i AllAgree.nobody = refl
moved-agree last i (AllAgree.also {s} {s'} a rest) =
    simp (a.seq_id, a.pending, moved-agree last (i + 1) rest)

abbrev pub with_pending : BatchTokens → ℕ → BatchTokens
with_pending t src = record t {
  pending_dst = t.pending_dst ++ length t.token_ids ∷ [];
  pending_src = t.pending_src ++ src ∷ [];
}

pub drafts-agree :
    (f : Bool) (k : ℕ) (t : BatchTokens) (s s' : Sequence) (src : ℕ)
    → Agrees s s'
    → with_drafts f k t s' src ≡ with_drafts f k t s src
drafts-agree false k t s s' src a = refl
drafts-agree true k t s s' src a = simp a.drafts

pub tokens-agree :
    {seqs seqs' : List Sequence} (last : LastStep) (f : Bool) (k : ℕ) (starts ends : List ℕ)
    (t : BatchTokens)
    → AllAgree seqs seqs'
    → gather_tokens last f k seqs' starts ends t ≡ gather_tokens last f k seqs starts ends t
unfolding gather_tokens prev_row
tokens-agree last f k starts ends t AllAgree.nobody = refl
tokens-agree last f k [] ends t (AllAgree.also a rest) = refl
tokens-agree last f k (start ∷ starts) [] t (AllAgree.also a rest) = refl
tokens-agree last f k (start ∷ starts) (end ∷ ends) t (AllAgree.also {s} {s'} a rest) =
    elim (Bool-cases s.is_prefill) [
      | inl pre ↦ simp (
        a.prefill,
        pre,
        a.pending,
        a.all_tokens pre,
        tokens-agree last f k starts ends (add_chunk t s start end) rest,
      )
      | inr dec ↦ elim (Bool-cases (s.num_pending_tokens == 0)) [
        | inl idle ↦ simp (
          a.prefill,
          dec,
          a.pending,
          idle,
          a.last dec,
          a.drafts,
          tokens-agree last f k starts ends (add_decode t s) rest,
        )
        | inr pending ↦ elim (Option-cases (Dict.get s.seq_id last.prev_rows)) [
          | inl missing ↦ simp (a.prefill, dec, a.pending, pending, a.seq_id, missing)
          | inr (src, found) ↦ simp (
            a.prefill,
            dec,
            a.pending,
            pending,
            a.seq_id,
            found,
            a.last dec,
            a.drafts,
            drafts-agree f k (with_pending t src) s s' src a,
            tokens-agree last f k starts ends
                (add_decode (with_drafts f k (with_pending t src) s src) s) rest,
          )
        ]
      ]
    ]
