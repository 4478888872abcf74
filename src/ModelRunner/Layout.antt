-- ===== src/ModelRunner/Layout.antt =====
-- The layout of a batch (prepare_batch and _move_back of lean_vllm/engine/model_runner.py): positions,
-- key lengths, logits and cache slots.
use lean_vllm.Prelude.{
  ℕ, ◌+◌, ◌-◌, ◌*◌, ◌/◌, ◌%◌, Bool, true, false, not, ◌&&◌, ◌||◌, Option, none, some, List, [], ◌∷◌,
  map, ◌==◌, if◌then◌else◌, length, get_elem?, set, replicate, ◌>>=◌, ltb,
}
use lean_vllm.Prelude.Int.{ℤ, pos, minus_ℤ}
use lean_vllm.Sequence.{Sequence}
use lean_vllm.ModelRunner.{decode_query_len}
use lean_vllm.ModelRunner.Arrays.{
  at, gather, range, repeat_each, cumsum, sum, plus, minus, index_of, maximum,
}
use lean_vllm.ModelRunner.Batch.{
  RunnerSettings, LastStep, Batch, draft_count, batch_order, pick, sampling_from, some_row,
  every_equal, moved_rows, move_starts, gather_tokens, no_tokens,
}

-- `starts[token_rows] + np.arange(cu_q[-1]) - cu_q[token_rows]`
unfoldable pub token_positions : List ℕ → List ℕ → List ℕ → List ℕ
token_positions starts lens token_rows =
    minus (plus (gather starts token_rows) (range (sum lens) 0))
      (gather (0 ∷ cumsum 0 lens) token_rows)

-- `np.repeat(firsts, counts) + offsets`, the rows of logits of each sampling row.
unfoldable pub logit_rows : List ℕ → List ℕ → List ℕ
logit_rows firsts counts =
    let offsets =
      minus (range (sum counts) 0) (repeat_each (minus (cumsum 0 counts) counts) counts) in
    plus (repeat_each firsts counts) offsets

-- The width of the padded table.
abbrev pub width_of : List (List ℕ) → ℕ
width_of tables = maximum (map (λ (table : List ℕ). length table) tables)

-- The slot of a token: its block's first slot and its offset in the block. A block that the row does
-- not have is the -1 that its table is padded with up to `width`, whose slot is negative; beyond that,
-- `none` is the IndexError.
unfoldable pub slot_in : ℕ → ℕ → List ℕ → ℕ → Option ℤ
slot_in block_size width table position = elim (get_elem? table (position / block_size)) [
  | some block ↦ some (pos (block * block_size + position % block_size))
  | none ↦
      if ltb (position / block_size) width
      then some (minus_ℤ (position % block_size) block_size)
      else none
]

-- Rows without blocks are skipped.
abbrev pub add_slot : ℕ → ℕ → Option (List ℕ) → ℕ → List (Option ℤ) → List (Option ℤ)
add_slot block_size width none position rest = rest
add_slot block_size width (some []) position rest = rest
add_slot block_size width (some (b ∷ table)) position rest =
    slot_in block_size width (b ∷ table) position ∷ rest

unfoldable pub slot_mapping : ℕ → ℕ → List (List ℕ) → List ℕ → List ℕ → List (Option ℤ)
slot_mapping block_size width tables [] positions = []
slot_mapping block_size width tables (row ∷ token_rows) [] = []
slot_mapping block_size width tables (row ∷ token_rows) (position ∷ positions) =
    add_slot block_size width (get_elem? tables row) position
      (slot_mapping block_size width tables token_rows positions)

-- The host corrects the positions of pending rows where attention is planned with exact lengths;
-- else the device does.
abbrev pub corrects_here : RunnerSettings → Bool → ℕ → List ℕ → List (ℕ × ℕ) → Bool
corrects_here c is_prefill query_len lens moved =
    not (length moved == 0)
    && (not c.decodes_latents
        || (is_prefill && not (every_equal query_len (gather lens (map (λ m. m.0) moved)))))

abbrev pub rejected_counts : Option (List ℕ) → List ℕ
rejected_counts none = []
rejected_counts (some num_rejected) = num_rejected

abbrev pub has_speculated : Option (List ℕ) → Bool
has_speculated none = false
has_speculated (some num_rejected) = true

-- The batch once its rows are in order and their starts are known.
unfoldable pub lay_out :
    RunnerSettings
    → LastStep
    → List Sequence
    → List Sequence
    → ℕ
    → Bool
    → List ℕ
    → List ℕ
    → List (ℕ × ℕ)
    → Option Batch
lay_out c last seqs batch query_len is_prefill order starts moved = do
  let lens = map (λ (s : Sequence). s.num_scheduled_tokens) batch
  let ends = plus starts lens
  let token_rows = repeat_each (range (length batch) 0) lens
  let positions = token_positions starts lens token_rows
  let sampling = sampling_from 0 seqs
  let drafts = gather (map draft_count seqs) sampling
  let last_index = map (λ n. n - 1) (cumsum 0 lens)
  let sampling_rows = map (λ i. index_of i order) sampling
  tokens ←
      gather_tokens last (has_speculated last.num_rejected) c.num_speculative_tokens batch starts
        ends no_tokens
  some (record {
    query_len = query_len;
    is_prefill = is_prefill;
    order = order;
    starts = starts;
    lens = lens;
    cu_seqlens_q = 0 ∷ cumsum 0 lens;
    cu_seqlens_k = 0 ∷ cumsum 0 ends;
    max_seqlen_q = maximum lens;
    max_seqlen_k = maximum ends;
    context_lens = ends;
    positions = positions;
    tokens = tokens;
    sampling = sampling;
    logits_indices =
        logit_rows (minus (gather last_index sampling_rows) drafts) (map (λ n. n + 1) drafts);
    slot_mapping =
        let tables = map (λ (s : Sequence). s.block_table) batch in
        slot_mapping c.block_size (width_of tables) tables token_rows positions;
    moved = moved;
  })

-- The batch whose rows are in order: how it runs, and where its rows start.
unfoldable pub place :
    RunnerSettings → LastStep → List Sequence → ℕ → List ℕ → List Sequence → Option Batch
place c last seqs query_len order batch = do
  let lens = map (λ (s : Sequence). s.num_scheduled_tokens) seqs
  moved ← moved_rows last last.num_rejected batch
  let has_prompt = some_row (λ s. s.is_prefill) seqs
  let uniform = not has_prompt && c.decodes_latents && every_equal query_len lens
  let has_drafts = some_row (λ s. not (draft_count s == 0)) seqs
  let is_prefill = has_prompt || (has_drafts && not uniform)
  let starts = map (λ (s : Sequence). s.num_cached_tokens) batch
  if corrects_here c is_prefill query_len (gather lens order) moved
      then lay_out c last seqs batch query_len is_prefill order
          (move_starts (rejected_counts last.num_rejected) moved starts) []
      else lay_out c last seqs batch query_len is_prefill order starts moved

unfoldable pub prepare_batch : RunnerSettings → LastStep → List Sequence → Option Batch
prepare_batch c last seqs = do
  let lens = map (λ (s : Sequence). s.num_scheduled_tokens) seqs
  let query_len = decode_query_len lens c.num_speculative_tokens
  let order = batch_order query_len lens
  batch ← pick seqs order
  place c last seqs query_len order batch

-- `back`, how far each row moves: the rejected drafts of the rows that moved.
unfoldable pub moved_back : List ℕ → List (ℕ × ℕ) → List ℕ → List ℕ
moved_back num_rejected [] back = back
moved_back num_rejected ((i, src) ∷ moved) back =
    set (moved_back num_rejected moved back) i (at num_rejected src)

-- The slots of all tokens, as the device computes them.
unfoldable pub device_slots : ℕ → ℕ → List (List ℕ) → List ℕ → List ℕ → List (Option ℤ)
device_slots block_size width tables [] positions = []
device_slots block_size width tables (row ∷ token_rows) [] = []
device_slots block_size width tables (row ∷ token_rows) (position ∷ positions) =
    (get_elem? tables row >>= λ table. slot_in block_size width table position)
    ∷ device_slots block_size width tables token_rows positions

-- _move_back, for the tables of the batch.
unfoldable pub move_back : ℕ → List ℕ → List (List ℕ) → Batch → Batch
move_back block_size num_rejected tables b =
    let back = moved_back num_rejected b.moved (replicate (length b.context_lens) 0) in
    let token_rows = repeat_each (range (length b.lens) 0) b.lens in
    let positions = minus b.positions (gather back token_rows) in
    let context_lens = minus b.context_lens back in
    record b {
      positions = positions;
      context_lens = context_lens;
      cu_seqlens_k = 0 ∷ cumsum 0 context_lens;
      slot_mapping = device_slots block_size (width_of tables) tables token_rows positions;
    }
