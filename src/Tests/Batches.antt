-- ===== src/Tests/Batches.antt =====
-- Batches.
use lean_vllm.Prelude.{
  ℕ, ◌/◌, ◌≤◌, ◌≡◌, refl, true, false, Option, none, some, List, [], ◌∷◌, arith,
}
use lean_vllm.Prelude.Dict
use lean_vllm.Sequence.{Sequence}
use lean_vllm.Sequence.Pickled.{receive, getstate, setstate}
use lean_vllm.ModelRunner
use lean_vllm.ModelRunner.{Graphs, is_some, piecewise_bucket, replay_size}
use lean_vllm.ModelRunner.Arrays.{plus}
use lean_vllm.ModelRunner.Batch.{
  RunnerSettings, LastStep, Batch, no_tokens, moved_from, move_starts, gather_tokens, prev_row,
  subtract_at,
}
use lean_vllm.ModelRunner.Layout.{prepare_batch, lay_out, move_back, moved_back}
use lean_vllm.ModelRunner.Ragged.{AllBelow}
use lean_vllm.ModelRunner.Rejection.{move_back_lem}
use lean_vllm.ModelRunner.Sizes.{step_kind_lem}
use lean_vllm.ModelRunner.Ranks.{prepare_batch_lem}
use lean_vllm.Tests.Requests.{five}

abbrev small : Graphs
small = record {
  cudagraph_mode = "full_and_piecewise";
  graph_bs = 1 ∷ 2 ∷ 4 ∷ [];
  graph_query_len = 1;
  piecewise_bs = 1 ∷ 2 ∷ 4 ∷ 8 ∷ [];
}

step_kind_example :
    (ModelRunner.step_kind small false 3 1 ≡ "graph"
      → (false ≡ false)
        × (1 ≡ small.graph_query_len)
        × (size : ℕ) × (replay_size small 3 ≡ some size)
        × (3 / 1 ≤ size))
    × (ModelRunner.step_kind small false 3 1 ≡ "piecewise"
        → is_some (piecewise_bucket small.piecewise_bs 3) ≡ true)
step_kind_example = step_kind_lem small false 3 1 (omega arith)

-- A chunk of a prompt and a decoding row with a draft whose last token is not known yet.
abbrev chunk : Sequence
chunk = record five {
  num_scheduled_tokens = 2;
  num_cached_tokens = 2;
  block_table = 3 ∷ 4 ∷ 5 ∷ [];
}

abbrev decoding : Sequence
decoding = record five {
  seq_id = 8;
  is_prefill = false;
  num_tokens = 6;
  num_cached_tokens = 6;
  num_pending_tokens = 2;
  num_scheduled_tokens = 2;
  spec_token_ids = none ∷ [];
  block_table = 0 ∷ 1 ∷ 2 ∷ 6 ∷ [];
}

abbrev settings : RunnerSettings
settings = record { block_size = 2; num_speculative_tokens = 1; decodes_latents = true }

abbrev last_step : LastStep
last_step = record { prev_rows = (8, 0) ∷ []; num_rejected = some (1 ∷ []) }

abbrev received : List Sequence
received =
    record five { num_scheduled_tokens = 2; num_cached_tokens = 2; block_table = 3 ∷ 4 ∷ 5 ∷ [] }
    ∷ record decoding { token_ids = []; last_token = 5 }
    ∷ []

prepare_batch_example :
    prepare_batch settings last_step received
    ≡ prepare_batch settings last_step (chunk ∷ decoding ∷ [])
unfolding receive getstate setstate
prepare_batch_example =
    prepare_batch_lem settings last_step five (chunk ∷ decoding ∷ []) received refl

abbrev empty_batch : Batch
empty_batch = record {
  query_len = 0;
  is_prefill = false;
  order = [];
  starts = [];
  lens = [];
  cu_seqlens_q = [];
  cu_seqlens_k = [];
  max_seqlen_q = 0;
  max_seqlen_k = 0;
  context_lens = [];
  positions = [];
  tokens = no_tokens;
  sampling = [];
  logits_indices = [];
  slot_mapping = [];
  moved = [];
}

abbrev batch_or_empty : Option Batch → Batch
batch_or_empty none = empty_batch
batch_or_empty (some b) = b

abbrev both : List Sequence
both = chunk ∷ decoding ∷ []

abbrev in_flight : Option Batch
in_flight = lay_out settings last_step both both 2 true (0 ∷ 1 ∷ []) (2 ∷ 6 ∷ []) ((1, 0) ∷ [])

abbrev corrected : Option Batch
corrected =
    lay_out settings last_step both both 2 true (0 ∷ 1 ∷ [])
      (move_starts (1 ∷ []) ((1, 0) ∷ []) (2 ∷ 6 ∷ [])) []

abbrev tables : List (List ℕ)
tables = chunk.block_table ∷ decoding.block_table ∷ []

move_back_example :
    ((move_back 2 (1 ∷ []) tables (batch_or_empty in_flight)).positions
      ≡ (batch_or_empty corrected).positions)
    × ((move_back 2 (1 ∷ []) tables (batch_or_empty in_flight)).context_lens
        ≡ (batch_or_empty corrected).context_lens)
    × ((move_back 2 (1 ∷ []) tables (batch_or_empty in_flight)).cu_seqlens_k
        ≡ (batch_or_empty corrected).cu_seqlens_k)
unfolding lay_out moved_from gather_tokens prev_row Dict.get moved_back AllBelow plus move_starts
    subtract_at
move_back_example =
    move_back_lem settings last_step both both 2 true (0 ∷ 1 ∷ []) (2 ∷ 6 ∷ []) (1 ∷ [])
      ((1, 0) ∷ []) tables (batch_or_empty in_flight) (batch_or_empty corrected) refl refl
      (omega arith, (omega arith, tt)) refl refl
