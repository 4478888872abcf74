-- ===== src/Scheduler/Commits.antt =====
-- The loop of reconcile over the tokens of one row: how many it commits, and when it stops.
use mathlib.Core.List.{append_assoc, append-nil}
use lean_vllm.Prelude.{
  ℕ, ◌+◌, ◌≤◌, ◌<◌, ◌≡◌, refl, sym, ap, ◌∙◌, ◌⊎◌, inl, inr, String, true, false, Option, none, some,
  List, [], ◌∷◌, ◌++◌, arith, ◌==◌, if◌then◌else◌, length, Bool-cases,
}
use lean_vllm.Sequence.{Settings, Sequence, num_completion_tokens}
use lean_vllm.Sequence.Commit.{IsHashed, committed, commit_token_returns}
use lean_vllm.Scheduler.{stops, stop_reason, commit_tokens}

-- No token of the list is a stop token of the request.
abbrev pub Quiet : Option ℕ → Sequence → List ℕ → Type 0
Quiet eos s [] = Unit
Quiet eos s (x ∷ xs) = (stops eos s x ≡ false) × Quiet eos s xs

-- Every token was committed, and none ends the request.
pub record Going (eos : Option ℕ) (s s' : Sequence) (taken rest : List ℕ) (reason : Option String)
    : Type 0 where
  pub runs_on : reason ≡ none
  pub all : rest ≡ []
  pub quiet : Quiet eos s taken
  pub short : num_completion_tokens s' < s.max_tokens

-- The last committed token ends the request, the first one to do so.
pub record Ended (eos : Option ℕ) (s s' : Sequence) (taken : List ℕ) (reason : Option String)
    : Type 0 where
  pub before : List ℕ
  pub last : ℕ
  pub at_last : taken ≡ before ++ last ∷ []
  pub quiet : Quiet eos s before
  pub bounded : num_completion_tokens s' ≤ s.max_tokens
  pub why :
      ((stops eos s last ≡ true) × (reason ≡ some "stop"))
      ⊎ ((stops eos s last ≡ false)
          × (num_completion_tokens s' ≡ s.max_tokens)
          × (reason ≡ some "length"))

pub record Committed (c : Settings) (eos : Option ℕ) (s s' : Sequence) (tokens : List ℕ)
    (reason : Option String) : Type 0 where
  pub taken : List ℕ
  pub rest : List ℕ
  pub split : tokens ≡ taken ++ rest
  pub appended : s'.token_ids ≡ s.token_ids ++ taken
  pub hashed : IsHashed c s'
  pub pending : s'.num_pending_tokens + length taken ≡ s.num_pending_tokens
  pub total : s'.num_tokens ≡ s.num_tokens + length taken
  pub new : s'.num_new_tokens ≡ s.num_new_tokens + length taken
  pub same_cached : s'.num_cached_tokens ≡ s.num_cached_tokens
  pub same_table : s'.block_table ≡ s.block_table
  pub outcome : Going eos s s' taken rest reason ⊎ Ended eos s s' taken reason

module _ (c : Settings) (eos : Option ℕ) (positive : 0 < c.block_size) where
  abbrev next : Sequence → ℕ → Sequence
  next s token_id = record (committed c positive s token_id) {
    num_new_tokens = s.num_new_tokens + 1;
  }

  -- One round of the loop, by what the stop checks say.
  abbrev after : Sequence → List ℕ → Option String → Option (Sequence × Option String)
  after s rest none = commit_tokens c eos rest s
  after s rest (some reason) = some (s, some reason)

  commit_first :
      (s : Sequence) (x : ℕ) (xs : List ℕ)
      → IsHashed c s
      → 0 < s.num_pending_tokens
      → commit_tokens c eos (x ∷ xs) s ≡ after (next s x) xs (stop_reason eos (next s x) x)
  unfolding commit_tokens
  commit_first s x xs v p =
      rw ((commit_token_returns c positive s x v p).0)
        (elim (stop_reason eos (next s x) x)
          as (λ r.
            elim r [
              | none ↦ commit_tokens c eos xs (next s x)
              | some reason ↦ some (next s x, some reason)
            ]
            ≡ after (next s x) xs r) [ none ↦ refl | some reason ↦ refl ])

  reason_at :
      (s : Sequence) (x : ℕ)
      → stop_reason eos (next s x) x ≡ (
          if stops eos s x
          then some "stop"
          else if num_completion_tokens (next s x) == s.max_tokens
          then some "length"
          else none)
  unfolding stop_reason stops
  reason_at s x = refl

  stops_at :
      (s : Sequence) (x : ℕ) → stops eos s x ≡ true → stop_reason eos (next s x) x ≡ some "stop"
  stops_at s x stop = reason_at s x ∙ simp stop

  full_at :
      (s : Sequence) (x : ℕ)
      → stops eos s x ≡ false
      → num_completion_tokens (next s x) == s.max_tokens ≡ true
      → stop_reason eos (next s x) x ≡ some "length"
  full_at s x quiet full = reason_at s x ∙ simp (quiet, full)

  runs_on_at :
      (s : Sequence) (x : ℕ)
      → stops eos s x ≡ false
      → num_completion_tokens (next s x) == s.max_tokens ≡ false
      → stop_reason eos (next s x) x ≡ none
  runs_on_at s x quiet short = reason_at s x ∙ simp (quiet, short)

  next-IsHashed :
      (s : Sequence) (x : ℕ) → IsHashed c s → 0 < s.num_pending_tokens → IsHashed c (next s x)
  next-IsHashed s x v p =
      let h = (commit_token_returns c positive s x v p).1 in
      record { counted = h.counted; prompt = h.prompt; last = h.last; hashes = h.hashes }

  Committed-last :
      (s : Sequence) (x : ℕ) (xs : List ℕ) (reason : String)
      → IsHashed c s
      → 0 < s.num_pending_tokens
      → num_completion_tokens s < s.max_tokens
      → ((stops eos s x ≡ true) × (reason ≡ "stop"))
        ⊎ ((stops eos s x ≡ false)
            × (num_completion_tokens (next s x) ≡ s.max_tokens)
            × (reason ≡ "length"))
      → Committed c eos s (next s x) (x ∷ xs) (some reason)
  unfolding num_completion_tokens
  Committed-last s x xs reason v p h why = record {
    taken = x ∷ [];
    rest = xs;
    split = refl;
    appended = refl;
    hashed = next-IsHashed s x v p;
    pending = omega arith;
    total = refl;
    new = refl;
    same_cached = refl;
    same_table = refl;
    outcome = inr (record {
      before = [];
      last = x;
      at_last = refl;
      quiet = tt;
      bounded = omega (arith, v.prompt);
      why = elim why [
        | inl (stop, e) ↦ inl (stop, ap some e)
        | inr (quiet, full, e) ↦ inr (quiet, full, ap some e)
      ];
    });
  }

  Quiet-next : (s : Sequence) (x : ℕ) (xs : List ℕ) → Quiet eos (next s x) xs → Quiet eos s xs
  unfolding stops
  Quiet-next s x [] q = tt
  Quiet-next s x (y ∷ ys) q = (q.0, Quiet-next s x ys q.1)

  Committed-first :
      (s s' : Sequence) (x : ℕ) (xs : List ℕ) (reason : Option String)
      → 0 < s.num_pending_tokens
      → stops eos s x ≡ false
      → Committed c eos (next s x) s' xs reason
      → Committed c eos s s' (x ∷ xs) reason
  unfolding num_completion_tokens stops
  Committed-first s s' x xs reason p quiet more = record {
    taken = x ∷ more.taken;
    rest = more.rest;
    split = ap (◌∷◌ x) more.split;
    appended = more.appended ∙ append_assoc s.token_ids (x ∷ []) more.taken;
    hashed = more.hashed;
    pending = omega (arith, more.pending);
    total = omega (arith, more.total);
    new = omega (arith, more.new);
    same_cached = more.same_cached;
    same_table = more.same_table;
    outcome = elim more.outcome [
      | inl g ↦ inl (record {
        runs_on = g.runs_on;
        all = g.all;
        quiet = (quiet, Quiet-next s x more.taken g.quiet);
        short = g.short;
      })
      | inr e ↦ inr (record {
        before = x ∷ e.before;
        last = e.last;
        at_last = ap (◌∷◌ x) e.at_last;
        quiet = (quiet, Quiet-next s x e.before e.quiet);
        bounded = e.bounded;
        why = e.why;
      })
    ];
  }

  -- On a request that has not reached max_tokens, hashed as its tokens, with a reservation for each
  -- new token, the loop returns. It commits the tokens up to the first that is a stop token or
  -- brings the request to max_tokens, with the reason "stop" or "length", or all of them if there is
  -- none; max_tokens is never exceeded, and the counters and hashes agree with the tokens.
  pub commit_tokens_lem :
      (tokens : List ℕ) (s : Sequence)
      → IsHashed c s
      → length tokens ≤ s.num_pending_tokens
      → num_completion_tokens s < s.max_tokens
      → (s' : Sequence) × (reason : Option String) × (commit_tokens c eos tokens s
          ≡ some (s', reason))
        × Committed c eos s s' tokens reason
  unfolding num_completion_tokens commit_tokens
  commit_tokens_lem [] s v p h = (
    s,
    none,
    refl,
    record {
      taken = [];
      rest = [];
      split = refl;
      appended = sym (append-nil s.token_ids);
      hashed = v;
      pending = omega arith;
      total = omega arith;
      new = omega arith;
      same_cached = refl;
      same_table = refl;
      outcome = inl (record { runs_on = refl; all = refl; quiet = tt; short = h });
    },
  )
  commit_tokens_lem (x ∷ xs) s v p h = elim (Bool-cases (stops eos s x)) [
    | inl stop ↦ (
      next s x,
      some "stop",
      commit_first s x xs v (omega arith) ∙ ap (after (next s x) xs) (stops_at s x stop),
      Committed-last s x xs "stop" v (omega arith) h (inl (stop, refl)),
    )
    | inr quiet ↦ elim (Bool-cases (num_completion_tokens (next s x) == s.max_tokens)) [
      | inl full ↦ (
        next s x,
        some "length",
        commit_first s x xs v (omega arith) ∙ ap (after (next s x) xs) (full_at s x quiet full),
        Committed-last s x xs "length" v (omega arith) h (inr (quiet, ground arith, refl)),
      )
      | inr short ↦
          let (s', reason, returns, more) =
            commit_tokens_lem xs (next s x) (next-IsHashed s x v (omega arith)) (omega arith)
              (ground (arith, v.prompt)) in
          (
            s',
            reason,
            commit_first s x xs v (omega arith)
                ∙ ap (after (next s x) xs) (runs_on_at s x quiet short)
                ∙ returns,
            Committed-first s s' x xs reason (omega arith) quiet more,
          )
    ]
  ]
