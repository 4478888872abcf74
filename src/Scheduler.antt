-- ===== src/Scheduler.antt =====
-- What lean_vllm/engine/scheduler.py does to one request in a step: the rows that advance launches
-- and the tokens that reconcile commits. Its queues are not part of this module.

pub mod Commits
pub mod Slots
pub mod Launch
pub mod State
pub mod Moves
pub mod Steps
pub mod Sound
pub mod Changes
pub mod Steady
pub mod Preempt
pub mod Room
pub mod Serving
pub mod Rows
pub mod Admitting
pub mod Waiting
pub mod Rounds
pub mod Updates
pub mod Departure
pub mod Requests
use lean_vllm.Prelude.{
  ℕ, zero, suc, min, ◌+◌, ◌-◌, String, Bool, true, false, not, ◌&&◌, ◌||◌, Option, none, some, List,
  [], ◌∷◌, ltb, leb, ◌==◌, if◌then◌else◌, length, assert, ◌>>=◌, ◌>>◌,
}
use lean_vllm.Prelude.Counting.{contains}
use lean_vllm.Sequence.{
  Settings, Sequence, SequenceStatus, num_completion_tokens, num_planned_tokens, is_finished,
  commit_token, drop_pending, reserve_token,
}
use lean_vllm.BlockManager.{BlockManager, hash_blocks}

-- The row's sequence is an argument beside it.
pub record LaunchedRow : Type 0 where
  pub num_preemptions : ℕ
  pub num_draft_tokens : ℕ

unfoldable pub num_step_tokens : Bool → ℕ → Sequence → ℕ → ℕ
num_step_tokens enable_chunked_prefill long_prefill_token_threshold s budget =
    let num_tokens = min (s.num_tokens - s.num_cached_tokens) budget in
    if s.is_prefill
    then (if enable_chunked_prefill && ltb 0 long_prefill_token_threshold
        then min num_tokens long_prefill_token_threshold
        else num_tokens)
    else 1 + length s.spec_token_ids

abbrev pub or_now : Option ℕ → ℕ → Option ℕ
or_now none now = some now
or_now (some t) now = some t

-- What _schedule writes of the sequence, with the tokens of the step; a threshold of 0 is none.
unfoldable pub schedule_tokens : Bool → ℕ → ℕ → Sequence → ℕ → Sequence × ℕ
schedule_tokens enable_chunked_prefill long_prefill_token_threshold now s budget =
    let num_tokens = num_step_tokens enable_chunked_prefill long_prefill_token_threshold s budget in
    (
      record s {
        num_scheduled_tokens = num_tokens;
        first_scheduled_time = or_now s.first_scheduled_time now;
      },
      num_tokens,
    )

-- PLACEHOLDER_TOKEN_ID, some times.
unfoldable pub placeholders : ℕ → List (Option ℕ)
placeholders zero = []
placeholders (suc n) = none ∷ placeholders n

-- The body of advance's loop. No row comes back for a prefill that is not finished.
unfoldable pub advance_row :
    ℕ → BlockManager → Sequence → Option (BlockManager × Sequence × Option LaunchedRow)
advance_row num_speculative_tokens m s = do
  (m', s') ←
      hash_blocks m
        (record s {
          num_cached_tokens = s.num_cached_tokens + s.num_scheduled_tokens;
          num_scheduled_tokens = 0;
          spec_token_ids = [];
        })
        (s.num_cached_tokens + s.num_scheduled_tokens)
  some (
      if ltb s'.num_cached_tokens (num_planned_tokens s') then (m', s', none) else (
        m',
        record (reserve_token (record s' { is_prefill = false }) (1 + length s.spec_token_ids)) {
          spec_token_ids = placeholders num_speculative_tokens;
        },
        some (record {
          num_preemptions = s.num_preemptions;
          num_draft_tokens = length s.spec_token_ids;
        }),
      ))

-- A tokenizer may have no eos token.
unfoldable pub is_eos : Option ℕ → ℕ → Bool
is_eos none token_id = false
is_eos (some eos) token_id = token_id == eos

-- Whether a token ends the request whatever its length.
unfoldable pub stops : Option ℕ → Sequence → ℕ → Bool
stops eos s token_id = is_eos eos token_id && not s.ignore_eos || contains token_id s.stop_token_ids

-- The stop checks after a commit.
unfoldable pub stop_reason : Option ℕ → Sequence → ℕ → Option String
stop_reason eos s token_id =
    if stops eos s token_id
    then some "stop"
    else if num_completion_tokens s == s.max_tokens
    then some "length"
    else none

unfoldable pub finish : Sequence → String → ℕ → Sequence
finish s reason now = record s {
  status = SequenceStatus.finished;
  finish_reason = some reason;
  finish_time = some now;
}

-- The slots of rejected drafts go back. A counter that would fall below zero is a fault here;
-- the source would go on with it.
unfoldable pub give_back_rejected : LaunchedRow → ℕ → Sequence → Option Sequence
give_back_rejected row num_new s = do
  assert (leb (row.num_draft_tokens + 1) (s.num_cached_tokens + num_new))
  assert (leb (row.num_draft_tokens + 1) (s.num_pending_tokens + num_new))
  some (record s {
    num_cached_tokens = s.num_cached_tokens + num_new - (row.num_draft_tokens + 1);
    num_pending_tokens = s.num_pending_tokens + num_new - (row.num_draft_tokens + 1);
    num_new_tokens = 0;
  })

-- Drafts are saved if no step in flight is verifying them.
unfoldable pub kept_drafts : Option (List (Option ℕ)) → Sequence → List (Option ℕ)
kept_drafts none s = s.spec_token_ids
kept_drafts (some drafts) s = if s.num_pending_tokens == 0 then drafts else s.spec_token_ids

abbrev pub keep_drafts : Option (List (Option ℕ)) → Sequence → Sequence
keep_drafts drafts s = record s { spec_token_ids = kept_drafts drafts s }

module _ (c : Settings) (eos : Option ℕ) where
  -- The loop of reconcile over a row's new tokens; a stop drops those after it.
  unfoldable pub commit_tokens : List ℕ → Sequence → Option (Sequence × Option String)
  commit_tokens [] s = some (s, none)
  commit_tokens (token_id ∷ rest) s = do
    s' ← commit_token c s token_id
    let s1 = record s' { num_new_tokens = s'.num_new_tokens + 1 }
    elim (stop_reason eos s1 token_id) [
      | some reason ↦ some (s1, some reason)
      | none ↦ commit_tokens rest s1
    ]

  -- The body of reconcile's loop. The outer `none` is a fault, the inner one a void row; a reason
  -- says that the request leaves `running`, `seqs` and, unless they are held, its blocks.
  unfoldable pub reconcile_row :
      ℕ
      → LaunchedRow
      → List ℕ
      → Option (List (Option ℕ))
      → Sequence
      → Option (Option (Sequence × Option String))
  reconcile_row now row new_token_ids drafts s =
      if is_finished s || not (s.num_preemptions == row.num_preemptions) then some none else do
        s0 ← give_back_rejected row (length new_token_ids) s
        (s1, reason) ← commit_tokens new_token_ids s0
        let s2 = record s1 { first_token_time = or_now s1.first_token_time now }
        some (
            some (elim reason [
              | none ↦ (keep_drafts drafts s2, none)
              | some why ↦ (finish (drop_pending s2) why now, some why)
            ]))
