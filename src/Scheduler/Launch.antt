-- ===== src/Scheduler/Launch.antt =====
-- The loop body of advance: a launched step's tokens are counted, its blocks published, and slots
-- reserved for what it samples.
use lean_vllm.Prelude.{
  ℕ, ◌+◌, ◌/◌, ◌≤◌, ◌<◌, ◌≡◌, refl, ap, ◌∙◌, ◌⊎◌, inl, inr, Bool, true, false, Option, none, some,
  [], arith, ltb, if◌then◌else◌, length, min, max, Bool-cases, ltb→lt, not_ltb→le,
}
use lean_vllm.Sequence.{Sequence, num_planned_tokens, reserve_token}
use lean_vllm.Sequence.Commit.{IsHashed}
use lean_vllm.BlockManager.{BlockManager, hash_blocks}
use lean_vllm.BlockManager.Valid.{IsValid}
use lean_vllm.BlockManager.Publish.{IsPublished, IsUnpublished, IsDistinct, hash_blocks_lem}
use lean_vllm.Scheduler.{LaunchedRow, advance_row, schedule_tokens, num_step_tokens, placeholders}
use lean_vllm.Scheduler.Slots.{IsDecoding}

-- The tokens whose keys and values are there once the step has run.
abbrev pub num_reached : Sequence → ℕ
num_reached s = s.num_cached_tokens + s.num_scheduled_tokens

-- The blocks that those tokens fill, of the committed ones.
abbrev pub num_full : BlockManager → Sequence → ℕ
num_full m s = min (num_reached s) s.num_tokens / m.settings.block_size

-- The row samples: slots are reserved for a token and for every draft.
pub record Launched (s s' : Sequence) (row : Option LaunchedRow) : Type 0 where
  pub reached : num_planned_tokens s ≤ num_reached s
  pub row_is :
      row
      ≡ some (record {
        num_preemptions = s.num_preemptions;
        num_draft_tokens = length s.spec_token_ids;
      })
  pub pending : s'.num_pending_tokens ≡ s.num_pending_tokens + (1 + length s.spec_token_ids)
  pub decodes : s'.is_prefill ≡ false

-- The prefill is not finished: nothing is sampled or reserved.
pub record Unfinished (s s' : Sequence) (row : Option LaunchedRow) : Type 0 where
  pub left : num_reached s < num_planned_tokens s
  pub no_row : row ≡ none
  pub pending : s'.num_pending_tokens ≡ s.num_pending_tokens
  pub same_phase : s'.is_prefill ≡ s.is_prefill

pub record Advanced (k : ℕ) (m m' : BlockManager) (held : ℕ → ℕ) (s s' : Sequence)
    (row : Option LaunchedRow) : Type 0 where
  pub valid : IsValid m' held
  pub cached : s'.num_cached_tokens ≡ num_reached s
  pub same_tokens : s'.token_ids ≡ s.token_ids
  pub same_total : s'.num_tokens ≡ s.num_tokens
  pub published : (j : ℕ) → s.num_published_blocks ≤ j → j < num_full m s → IsPublished m' s j
  pub outcome : Launched s s' row ⊎ Unfinished s s' row

module _ (k : ℕ) (m : BlockManager) (held : ℕ → ℕ) (s : Sequence) where
  -- The request as hash_blocks gets it, and as it leaves it.
  abbrev counted : Sequence
  counted = record s {
    num_cached_tokens = num_reached s;
    num_scheduled_tokens = 0;
    spec_token_ids = [];
  }

  abbrev hashed_to : ℕ → Sequence
  hashed_to n = record counted { num_published_blocks = n }

  abbrev sampling : Sequence → Sequence
  sampling s1 = record s1 {
    is_prefill = false;
    num_pending_tokens = s1.num_pending_tokens + (1 + length s.spec_token_ids);
    spec_token_ids = placeholders k;
  }

  abbrev launched_row : LaunchedRow
  launched_row = record {
    num_preemptions = s.num_preemptions;
    num_draft_tokens = length s.spec_token_ids;
  }

  advance_row_returns :
      (m' : BlockManager) (n : ℕ)
      → hash_blocks m counted (num_reached s) ≡ some (m', hashed_to n)
      → advance_row k m s
        ≡ some (
            if ltb (num_reached s) (num_planned_tokens s)
            then (m', hashed_to n, none)
            else (m', sampling (hashed_to n), some launched_row))
  unfolding advance_row reserve_token
  advance_row_returns m' n h = rw h refl

  -- With prefix caching on, a valid manager, hashes as the tokens, a table of distinct blocks, and
  -- none of the blocks to publish in a prefix yet: the row is advanced without a fault. The
  -- scheduled tokens count as cached, the blocks that they fill are published, and the manager stays
  -- valid. A row comes back if every planned token is reached, with a slot reserved for its token
  -- and each of its drafts; otherwise none does, and nothing is reserved.
  pub advance_row_lem :
      m.settings.enable_prefix_caching ≡ true
      → 0 < m.settings.block_size
      → IsHashed m.settings s
      → IsValid m held
      → IsDistinct s.block_table
      → ((j : ℕ) → s.num_published_blocks ≤ j → j < num_full m s → IsUnpublished m s j)
      → (m' : BlockManager) × (s' : Sequence) × (row : Option LaunchedRow) × (advance_row k m s
          ≡ some (m', s', row))
        × Advanced k m m' held s s' row
  advance_row_lem on positive hashed v distinct fresh =
      let h : IsHashed m.settings counted = record {
        counted = hashed.counted;
        prompt = hashed.prompt;
        last = hashed.last;
        hashes = hashed.hashes;
      } in
      let (m', returns, valid, published) =
        hash_blocks_lem m held counted (num_reached s) (num_full m s) refl on positive h v distinct
          fresh in
      let n : ℕ = max s.num_published_blocks (num_full m s) in
      elim (Bool-cases (ltb (num_reached s) (num_planned_tokens s))) [
        | inl less ↦ (
          m',
          hashed_to n,
          none,
          advance_row_returns m' n returns ∙ simp less,
          record {
            valid = valid;
            cached = refl;
            same_tokens = refl;
            same_total = refl;
            published = published;
            outcome = inr (record {
              left = ltb→lt _ _ less;
              no_row = refl;
              pending = refl;
              same_phase = refl;
            });
          },
        )
        | inr reached ↦ (
          m',
          sampling (hashed_to n),
          some launched_row,
          advance_row_returns m' n returns ∙ simp reached,
          record {
            valid = valid;
            cached = refl;
            same_tokens = refl;
            same_total = refl;
            published = published;
            outcome = inl (record {
              reached = not_ltb→le _ _ reached;
              row_is = refl;
              pending = refl;
              decodes = refl;
            });
          },
        )
      ]

module _ (k : ℕ) (m : BlockManager) (held : ℕ → ℕ) (s : Sequence) (chunked : Bool)
    (threshold now budget : ℕ) where
  abbrev scheduled : Sequence
  scheduled = (schedule_tokens chunked threshold now s budget).0

  scheduled-decode :
      s.is_prefill ≡ false
      → num_reached scheduled ≡ s.num_cached_tokens + (1 + length s.spec_token_ids)
  unfolding schedule_tokens num_step_tokens
  scheduled-decode decodes = simp decodes

  -- A decode step of a request with all planned tokens but the last cached, scheduled and then
  -- advanced, with prefix caching on, a valid manager, hashes as the tokens, a table of distinct
  -- blocks, and none of the blocks to publish in a prefix yet: it launches a row for its drafts,
  -- reserves a slot for each and one more, keeps the manager valid, and leaves the request again
  -- with all planned tokens but the last cached.
  pub decode_step_lem :
      m.settings.enable_prefix_caching ≡ true
      → 0 < m.settings.block_size
      → IsHashed m.settings s
      → IsValid m held
      → IsDistinct s.block_table
      → ((j : ℕ) → s.num_published_blocks ≤ j → j < num_full m scheduled → IsUnpublished m s j)
      → s.is_prefill ≡ false
      → IsDecoding s
      → (m' : BlockManager) × (s' : Sequence) × (advance_row k m scheduled
          ≡ some (
            m',
            s',
            some (record {
              num_preemptions = s.num_preemptions;
              num_draft_tokens = length s.spec_token_ids;
            }),
          ))
        × IsDecoding s'
        × (s'.num_pending_tokens ≡ s.num_pending_tokens + (1 + length s.spec_token_ids))
        × IsValid m' held
  unfolding schedule_tokens
  decode_step_lem on positive hashed v distinct fresh decodes decoding =
      let h : IsHashed m.settings scheduled = record {
        counted = hashed.counted;
        prompt = hashed.prompt;
        last = hashed.last;
        hashes = hashed.hashes;
      } in
      let (m', s', row, returns, a) =
        advance_row_lem k m held scheduled on positive h v distinct fresh in
      let reached : num_reached scheduled ≡ s.num_cached_tokens + (1 + length s.spec_token_ids) =
        scheduled-decode decodes in
      elim a.outcome [
        | inr u ↦ absurd (omega (arith, u.left, reached))
        | inl l ↦ (
          m',
          s',
          returns ∙ ap (λ r. some (m', s', r)) l.row_is,
          omega (arith, a.cached, a.same_total, l.pending, reached),
          l.pending,
          a.valid,
        )
      ]
