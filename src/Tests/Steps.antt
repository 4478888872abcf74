-- ===== src/Tests/Steps.antt =====
-- Launched rows and their tokens.
use lean_vllm.Prelude.{
  ℕ, ◌≤◌, ◌≡◌, refl, ◌⊎◌, true, false, Option, none, some, List, [], ◌∷◌, ◌++◌, arith, String,
}
use lean_vllm.Sequence.{Sequence, num_completion_tokens, is_finished}
use lean_vllm.Scheduler
use lean_vllm.Sequence.Commit.{IsHashed}
use lean_vllm.BlockManager.{BlockManager}
use lean_vllm.BlockManager.Valid.{IsValid, hold}
use lean_vllm.Scheduler.{LaunchedRow, commit_tokens, reconcile_row, advance_row, schedule_tokens}
use lean_vllm.Scheduler.Commits.{Committed, commit_tokens_lem}
use lean_vllm.Scheduler.Slots.{IsDecoding, Settled, Closed, reconcile_row_lem}
use lean_vllm.Scheduler.Launch.{Advanced, advance_row_lem, decode_step_lem}
use lean_vllm.Tests.Requests.{pairs}
use lean_vllm.Tests.Blocks.{
  none_held, allocated, admitted, filled, running, allocated-IsValid, filled-IsValid,
  admitted-IsDistinct, admitted-IsUnpublished,
}

-- A draft is being verified, and its two slots are reserved.
abbrev verifying : Sequence
verifying = record running { num_cached_tokens = 6; num_pending_tokens = 2; is_prefill = false }

abbrev one_draft : LaunchedRow
one_draft = record { num_preemptions = 0; num_draft_tokens = 1 }

verifying-IsHashed : IsHashed pairs verifying
verifying-IsHashed = record { counted = refl; prompt = omega arith; last = refl; hashes = refl }

commit_tokens_example :
    (s' : Sequence) × (reason : Option String) × (commit_tokens pairs
        (some 9)
        (9 ∷ 8 ∷ [])
        verifying
      ≡ some (s', reason))
    × Committed pairs (some 9) verifying s' (9 ∷ 8 ∷ []) reason
unfolding num_completion_tokens
commit_tokens_example =
    commit_tokens_lem pairs (some 9) (omega arith) (9 ∷ 8 ∷ []) verifying verifying-IsHashed
      (omega arith) (omega arith)

-- The draft is rejected.
reconcile_row_example :
    (s' : Sequence) × (reason : Option String) × (taken : List ℕ) × (rest : List ℕ) × (reconcile_row
        pairs
        (some 9)
        50
        one_draft
        (8 ∷ [])
        none
        verifying
      ≡ some (some (s', reason)))
    × (8 ∷ [] ≡ taken ++ rest)
    × (s'.token_ids ≡ (1 ∷ 2 ∷ 3 ∷ 4 ∷ 5 ∷ []) ++ taken)
    × IsHashed pairs s'
    × (num_completion_tokens s' ≤ 4)
    × (((reason ≡ none) × (rest ≡ []) × Settled one_draft verifying s') ⊎ Closed s' reason)
unfolding is_finished num_completion_tokens
reconcile_row_example =
    reconcile_row_lem pairs (some 9) (omega arith) 50 one_draft (8 ∷ []) none verifying
      verifying-IsHashed refl refl refl (omega arith) (omega arith) (omega arith)

-- The whole prompt is scheduled.
abbrev prompted : Sequence
prompted = record admitted { num_scheduled_tokens = 5 }

advance_row_example :
    (m' : BlockManager) × (s' : Sequence) × (row : Option LaunchedRow) × (advance_row 1 allocated
        prompted
      ≡ some (m', s', row))
    × Advanced 1 allocated m' (hold (0 ∷ 1 ∷ 2 ∷ []) none_held) prompted s' row
advance_row_example =
    advance_row_lem 1 allocated (hold (0 ∷ 1 ∷ 2 ∷ []) none_held) prompted refl (omega arith)
      (record { counted = refl; prompt = omega arith; last = refl; hashes = refl })
      allocated-IsValid admitted-IsDistinct admitted-IsUnpublished

-- One draft is to be verified.
abbrev drafted : Sequence
drafted = record running { num_cached_tokens = 4; is_prefill = false; spec_token_ids = some 8 ∷ [] }

decode_step_example :
    (m' : BlockManager) × (s' : Sequence) × (advance_row 1 filled
        (schedule_tokens true 0 40 drafted 100).0
      ≡ some (m', s', some (record { num_preemptions = 0; num_draft_tokens = 1 })))
    × IsDecoding s'
    × (s'.num_pending_tokens ≡ 2)
    × IsValid m' (hold (0 ∷ 1 ∷ 2 ∷ []) none_held)
unfolding schedule_tokens Scheduler.num_step_tokens
decode_step_example =
    decode_step_lem 1 filled (hold (0 ∷ 1 ∷ 2 ∷ []) none_held) drafted true 0 40 100 refl
      (omega arith) (record { counted = refl; prompt = omega arith; last = refl; hashes = refl })
      filled-IsValid admitted-IsDistinct (λ j from h. absurd (omega arith)) refl refl
