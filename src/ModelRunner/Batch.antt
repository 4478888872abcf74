-- ===== src/ModelRunner/Batch.antt =====
-- prepare_batch of lean_vllm/engine/model_runner.py: the arrays that a step's sequences become. The
-- copies to the device, the sampling settings and the drafter's inputs are not part of it; a list is
-- an array in host memory. `none` is a failed assertion, or an index out of range.
use lean_vllm.Prelude.{
  ℕ, zero, suc, ◌+◌, ◌-◌, ◌*◌, Bool, true, false, Option, none, some, List, [], ◌∷◌, ◌++◌, map, leb,
  ◌==◌, if◌then◌else◌, length, take, drop, get_elem?, assert, ◌>>=◌, ◌>>◌,
}
use lean_vllm.Prelude.Dict
use lean_vllm.Prelude.Int.{ℤ}
use lean_vllm.Sequence.{Sequence, num_planned_tokens}
use lean_vllm.ModelRunner.Arrays.{at, range, where_equal, where_other}

pub record RunnerSettings : Type 0 where
  pub block_size : ℕ
  pub num_speculative_tokens : ℕ
  pub decodes_latents : Bool

-- What the batch has of the last launched step: the row of each sampled sequence, and, with
-- speculation, how many drafts each row had rejected.
pub record LastStep : Type 0 where
  pub prev_rows : List (ℕ × ℕ)
  pub num_rejected : Option (List ℕ)

-- Where the tokens of the batch come from: the host's token ids, with `none` for a draft that is
-- not known there, and the places that the device's tokens and drafts overwrite.
pub record BatchTokens : Type 0 where
  pub token_ids : List (Option ℕ)
  pub pending_dst : List ℕ
  pub pending_src : List ℕ
  pub draft_dst : List ℕ
  pub draft_src : List ℕ

pub record Batch : Type 0 where
  pub query_len : ℕ
  pub is_prefill : Bool
  pub order : List ℕ
  pub starts : List ℕ
  pub lens : List ℕ
  pub cu_seqlens_q : List ℕ
  pub cu_seqlens_k : List ℕ
  pub max_seqlen_q : ℕ
  pub max_seqlen_k : ℕ
  pub context_lens : List ℕ
  pub positions : List ℕ
  pub tokens : BatchTokens
  pub sampling : List ℕ
  pub logits_indices : List ℕ
  pub slot_mapping : List (Option ℤ)
  pub moved : List (ℕ × ℕ)

unfoldable pub draft_count : Sequence → ℕ
draft_count s = if s.is_prefill then 0 else s.num_scheduled_tokens - 1

-- The rows of the query length first, each group in the scheduler's order, by the stable argsort.
unfoldable pub batch_order : ℕ → List ℕ → List ℕ
batch_order query_len lens = where_equal query_len 0 lens ++ where_other query_len 0 lens

unfoldable pub pick {ℓ} : {A : Type ℓ} → List A → List ℕ → Option (List A)
pick xs [] = some []
pick xs (i ∷ indices) = do x ← get_elem? xs i; rest ← pick xs indices; some (x ∷ rest)

-- `np.flatnonzero(starts + lens >= planned)`, in scheduler order.
unfoldable pub sampling_from : ℕ → List Sequence → List ℕ
sampling_from i [] = []
sampling_from i (s ∷ seqs) =
    let rest = sampling_from (i + 1) seqs in
    if leb (num_planned_tokens s) (s.num_cached_tokens + s.num_scheduled_tokens)
    then i ∷ rest
    else rest

-- `any(...)` over the rows
unfoldable pub some_row : (Sequence → Bool) → List Sequence → Bool
some_row p [] = false
some_row p (s ∷ seqs) = let rest = some_row p seqs in if p s then true else rest

unfoldable pub every_equal : ℕ → List ℕ → Bool
every_equal n [] = true
every_equal n (x ∷ xs) = let rest = every_equal n xs in if x == n then rest else false

-- _prev_row
unfoldable pub prev_row : LastStep → Sequence → Option ℕ
prev_row last s = Dict.get s.seq_id last.prev_rows

-- `moved` and `moved_src`: the batch rows with pending tokens, and their rows in the last step.
unfoldable pub moved_from : LastStep → ℕ → List Sequence → Option (List (ℕ × ℕ))
moved_from last i [] = some []
moved_from last i (s ∷ batch) = do
  rest ← moved_from last (i + 1) batch
  if s.num_pending_tokens == 0 then some rest else do row ← prev_row last s; some ((i, row) ∷ rest)

abbrev pub moved_rows : LastStep → Option (List ℕ) → List Sequence → Option (List (ℕ × ℕ))
moved_rows last none batch = some []
moved_rows last (some num_rejected) batch = moved_from last 0 batch

-- `starts[moved] -= [num_rejected[src] for src in moved_src]`
unfoldable pub subtract_at : ℕ → ℕ → List ℕ → List ℕ
subtract_at i n [] = []
subtract_at zero n (x ∷ xs) = (x - n) ∷ xs
subtract_at (suc i) n (x ∷ xs) = x ∷ subtract_at i n xs

unfoldable pub move_starts : List ℕ → List (ℕ × ℕ) → List ℕ → List ℕ
move_starts num_rejected [] starts = starts
move_starts num_rejected ((i, src) ∷ moved) starts =
    move_starts num_rejected moved (subtract_at i (at num_rejected src) starts)

-- The tokens of one prompt chunk.
abbrev pub add_chunk : BatchTokens → Sequence → ℕ → ℕ → BatchTokens
add_chunk t s start end = record t {
  token_ids =
      t.token_ids ++ map (λ token. some token) (take (end - start) (drop start s.token_ids));
}

-- The last token and the drafts of a row; those of a row with a pending token come from the device.
abbrev pub add_decode : BatchTokens → Sequence → BatchTokens
add_decode t s = record t { token_ids = t.token_ids ++ some s.last_token ∷ s.spec_token_ids }

abbrev pub with_drafts : Bool → ℕ → BatchTokens → Sequence → ℕ → BatchTokens
with_drafts false k t s src = t
with_drafts true k t s src =
    let n = length s.spec_token_ids in
    record t {
      draft_dst = t.draft_dst ++ range n (length t.token_ids + 1);
      draft_src = t.draft_src ++ range n (src * k);
    }

-- The loop over the batch.
unfoldable pub gather_tokens :
    LastStep → Bool → ℕ → List Sequence → List ℕ → List ℕ → BatchTokens → Option BatchTokens
gather_tokens last in_flight k [] starts ends t = some t
gather_tokens last in_flight k (s ∷ batch) [] ends t = some t
gather_tokens last in_flight k (s ∷ batch) (start ∷ starts) [] t = some t
gather_tokens last in_flight k (s ∷ batch) (start ∷ starts) (end ∷ ends) t =
    if s.is_prefill
    then (do
      assert (s.num_pending_tokens == 0)
      gather_tokens last in_flight k batch starts ends (add_chunk t s start end))
    else if s.num_pending_tokens == 0
    then gather_tokens last in_flight k batch starts ends (add_decode t s)
    else do
      src ← prev_row last s
      let t1 = record t {
        pending_dst = t.pending_dst ++ length t.token_ids ∷ [];
        pending_src = t.pending_src ++ src ∷ [];
      }
      gather_tokens last in_flight k batch starts ends
          (add_decode (with_drafts in_flight k t1 s src) s)

abbrev pub no_tokens : BatchTokens
no_tokens = record {
  token_ids = [];
  pending_dst = [];
  pending_src = [];
  draft_dst = [];
  draft_src = [];
}
