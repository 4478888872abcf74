-- ===== src/Scheduler/Slots.antt =====
-- The reserved slots of a request over a launched row: what advance reserves, and what reconcile
-- gives back for rejected drafts.
use native.Mathlib.Nat.{add-zero}
use lean_vllm.Prelude.{
  ℕ, ◌+◌, ◌-◌, ◌≤◌, ◌<◌, ◌≡◌, refl, ap, ◌∙◌, ◌⊎◌, inl, inr, String, true, false, Option, none, some,
  List, [], ◌++◌, arith, ◌==◌, length, length-append,
}
use lean_vllm.Sequence.{
  Settings, Sequence, SequenceStatus, num_completion_tokens, num_planned_tokens, is_finished,
  drop_pending,
}
use lean_vllm.Sequence.Commit.{IsHashed, IsHashed-nonempty}
use lean_vllm.Scheduler.{
  LaunchedRow, give_back_rejected, commit_tokens, keep_drafts, finish, reconcile_row, or_now,
}
use lean_vllm.Scheduler.Commits.{Committed, commit_tokens_lem}

-- All planned tokens but the last have their keys and values cached, or in a launched step.
abbrev pub IsDecoding : Sequence → Type 0
IsDecoding s = s.num_cached_tokens + 1 ≡ num_planned_tokens s

-- A request goes on: the row's slots are settled.
pub record Settled (row : LaunchedRow) (s s' : Sequence) : Type 0 where
  pub decoding : IsDecoding s'
  pub settled : s'.num_pending_tokens + (row.num_draft_tokens + 1) ≡ s.num_pending_tokens
  pub short : num_completion_tokens s' < s.max_tokens

-- A request ends, with no slot reserved.
pub record Closed (s' : Sequence) (reason : Option String) : Type 0 where
  pub finished : s'.status ≡ SequenceStatus.finished
  pub no_pending : s'.num_pending_tokens ≡ 0
  pub says : s'.finish_reason ≡ reason
  pub some_reason : (why : String) × (reason ≡ some why)

module _ (c : Settings) (eos : Option ℕ) (positive : 0 < c.block_size) (now : ℕ) (row : LaunchedRow)
    (tokens : List ℕ) (drafts : Option (List (Option ℕ))) (s : Sequence) where
  -- The counters once rejected drafts gave back their slots.
  abbrev returned : Sequence
  returned = record s {
    num_cached_tokens = s.num_cached_tokens + length tokens - (row.num_draft_tokens + 1);
    num_pending_tokens = s.num_pending_tokens + length tokens - (row.num_draft_tokens + 1);
    num_new_tokens = 0;
  }

  gives_back :
      row.num_draft_tokens + 1 ≤ s.num_cached_tokens + length tokens
      → row.num_draft_tokens + 1 ≤ s.num_pending_tokens + length tokens
      → give_back_rejected row (length tokens) s ≡ some returned
  unfolding give_back_rejected
  gives_back p q = ground arith

  -- What reconcile makes of the committed request.
  abbrev concluded : Sequence → Option String → Sequence
  concluded s1 none =
      keep_drafts drafts (record s1 { first_token_time = or_now s1.first_token_time now })
  concluded s1 (some why) =
      finish (drop_pending (record s1 { first_token_time = or_now s1.first_token_time now })) why
        now

  reconcile_row_returns :
      (s1 : Sequence) (reason : Option String)
      → is_finished s ≡ false
      → s.num_preemptions ≡ row.num_preemptions
      → give_back_rejected row (length tokens) s ≡ some returned
      → commit_tokens c eos tokens returned ≡ some (s1, reason)
      → reconcile_row c eos now row tokens drafts s ≡ some (some (concluded s1 reason, reason))
  unfolding reconcile_row
  reconcile_row_returns s1 none live current back done =
      let same : (s.num_preemptions == row.num_preemptions) ≡ true = ground arith in
      simp (live, same, back, done)
  reconcile_row_returns s1 (some why) live current back done =
      let same : (s.num_preemptions == row.num_preemptions) ≡ true = ground arith in
      simp (live, same, back, done)

  concluded-tokens :
      (s1 : Sequence) (reason : Option String)
      → ((concluded s1 reason).token_ids ≡ s1.token_ids)
        × ((concluded s1 reason).num_tokens ≡ s1.num_tokens)
        × ((concluded s1 reason).num_prompt_tokens ≡ s1.num_prompt_tokens)
  unfolding finish drop_pending
  concluded-tokens s1 none = (refl, refl, refl)
  concluded-tokens s1 (some why) = (refl, refl, refl)

  concluded-IsHashed :
      (s1 : Sequence) (reason : Option String) → IsHashed c s1 → IsHashed c (concluded s1 reason)
  unfolding finish drop_pending
  concluded-IsHashed s1 none v = record {
    counted = v.counted;
    prompt = v.prompt;
    last = v.last;
    hashes = v.hashes;
  }
  concluded-IsHashed s1 (some why) v = record {
    counted = v.counted;
    prompt = v.prompt;
    last = v.last;
    hashes = v.hashes;
  }

  bounded_by :
      (s1 : Sequence) (reason : Option String)
      → Committed c eos returned s1 tokens reason
      → num_completion_tokens (concluded s1 reason) ≤ s.max_tokens
  unfolding num_completion_tokens
  bounded_by s1 reason k =
      let (_, n, p) = concluded-tokens s1 reason in
      elim k.outcome [
        | inl g ↦ omega (arith, g.short, n, p)
        | inr e ↦ omega (arith, e.bounded, n, p)
      ]

  settles :
      (s1 : Sequence) (reason : Option String) (k : Committed c eos returned s1 tokens reason)
      → IsHashed c s
      → IsDecoding s
      → row.num_draft_tokens + 1 ≤ s.num_pending_tokens
      → ((reason ≡ none) × (k.rest ≡ []) × Settled row s (concluded s1 reason))
        ⊎ Closed (concluded s1 reason) reason
  unfolding num_completion_tokens finish drop_pending
  settles s1 none k hashed decoding reserved = elim k.outcome [
    | inl g ↦
        let all : length tokens ≡ length k.taken =
          ap length k.split ∙ length-append k.taken k.rest ∙ simp (g.all, add-zero) in
        let some_token : 0 < s.num_tokens = IsHashed-nonempty c s hashed in
        inl (
          refl,
          g.all,
          record {
            decoding =
                omega
                  (arith, all, some_token, decoding, reserved, k.pending, k.total, k.same_cached);
            settled = omega (arith, all, reserved, k.pending);
            short = g.short;
          },
        )
    | inr e ↦ elim e.why [ inl (_, r) ↦ absurd (cc r) | inr (_, _, r) ↦ absurd (cc r) ]
  ]
  settles s1 (some why) k hashed decoding reserved = elim k.outcome [
    | inl g ↦ absurd (cc (g.runs_on))
    | inr e ↦
        inr (record { finished = refl; no_pending = refl; says = refl; some_reason = (why, refl) })
  ]

  -- Take a live request below max_tokens, hashed as its tokens, with all planned tokens but the
  -- last cached, and a current row with a slot reserved for its token and for each of its drafts.
  -- With at most as many tokens as slots the row is settled without a fault, and a prefix of the
  -- tokens is committed. Either all are and the request goes on: it is still below max_tokens, the
  -- row's reservations are gone while those of later rows stay, and again all planned tokens but
  -- the last are cached. Or the request is finished, with at most max_tokens, no reservation, and
  -- the reason recorded.
  pub reconcile_row_lem :
      IsHashed c s
      → IsDecoding s
      → is_finished s ≡ false
      → s.num_preemptions ≡ row.num_preemptions
      → row.num_draft_tokens + 1 ≤ s.num_pending_tokens
      → length tokens ≤ row.num_draft_tokens + 1
      → num_completion_tokens s < s.max_tokens
      → (s' : Sequence) × (reason : Option String) × (taken : List ℕ) × (rest : List ℕ)
        × (reconcile_row c eos now row tokens drafts s ≡ some (some (s', reason)))
        × (tokens ≡ taken ++ rest)
        × (s'.token_ids ≡ s.token_ids ++ taken)
        × IsHashed c s'
        × (num_completion_tokens s' ≤ s.max_tokens)
        × (((reason ≡ none) × (rest ≡ []) × Settled row s s') ⊎ Closed s' reason)
  unfolding num_completion_tokens
  reconcile_row_lem hashed decoding live current reserved fits short =
      let some_token : 0 < s.num_tokens = IsHashed-nonempty c s hashed in
      let v : IsHashed c returned = record {
        counted = hashed.counted;
        prompt = hashed.prompt;
        last = hashed.last;
        hashes = hashed.hashes;
      } in
      let (s1, reason, done, k) =
        commit_tokens_lem c eos positive tokens returned v (omega arith) short in
      (
        concluded s1 reason,
        reason,
        k.taken,
        k.rest,
        reconcile_row_returns s1 reason live current (gives_back (omega arith) (omega arith)) done,
        k.split,
        (concluded-tokens s1 reason).0 ∙ k.appended,
        concluded-IsHashed s1 reason k.hashed,
        bounded_by s1 reason k,
        settles s1 reason k hashed decoding reserved,
      )
