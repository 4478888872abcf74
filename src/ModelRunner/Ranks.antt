-- ===== src/ModelRunner/Ranks.antt =====
-- The batch of a tensor-parallel rank (lean_vllm/engine/model_runner.py), which has the sequences from
-- rank 0 by pickle (lean_vllm/engine/sequence.py).
use lean_vllm.Prelude.{
  ℕ, zero, suc, ◌≡◌, refl, ap, Bool, not, Option, none, some, List, [], ◌∷◌, map, Option-cases,
  ◌==◌, length, get_elem?, ◌>>=◌, inl, inr,
}
use lean_vllm.Sequence.{Sequence}
use lean_vllm.Sequence.Pickled.{receive}
use lean_vllm.ModelRunner.{decode_query_len}
use lean_vllm.ModelRunner.Arrays.{plus}
use lean_vllm.ModelRunner.Batch.{
  RunnerSettings, LastStep, draft_count, pick, some_row, moved_rows, batch_order, no_tokens,
  move_starts,
}
use lean_vllm.ModelRunner.Layout.{lay_out, place, prepare_batch, has_speculated, rejected_counts}
use lean_vllm.ModelRunner.Agreement.{
  Agrees, AllAgree, receive-AllAgree, map-agree, some_row-agree, draft_count-agree, sampling-agree,
  moved-agree, tokens-agree,
}

length-agree : {seqs seqs' : List Sequence} → AllAgree seqs seqs' → length seqs' ≡ length seqs
length-agree AllAgree.nobody = refl
length-agree (AllAgree.also a rest) = ap suc (length-agree rest)

lay_out-agree :
    {seqs seqs' batch batch' : List Sequence} (c : RunnerSettings) (last : LastStep) (q : ℕ)
    (p : Bool) (order starts : List ℕ) (moved : List (ℕ × ℕ))
    → AllAgree seqs seqs'
    → AllAgree batch batch'
    → lay_out c last seqs' batch' q p order starts moved
      ≡ lay_out c last seqs batch q p order starts moved
unfolding lay_out
lay_out-agree {seqs} {seqs'} {batch} {batch'} c last q p order starts moved all rows =
    let lens : map (λ (s : Sequence). s.num_scheduled_tokens) batch'
        ≡ map (λ (s : Sequence). s.num_scheduled_tokens) batch =
      map-agree _ (λ s s' a. a.scheduled) rows in
    let tables : map (λ (s : Sequence). s.block_table) batch'
        ≡ map (λ (s : Sequence). s.block_table) batch =
      map-agree _ (λ s s' a. a.table) rows in
    let drafts : map draft_count seqs' ≡ map draft_count seqs =
      map-agree draft_count draft_count-agree all in
    let ends = plus starts (map (λ (s : Sequence). s.num_scheduled_tokens) batch) in
    simp (
      lens,
      tables,
      drafts,
      length-agree rows,
      sampling-agree 0 all,
      tokens-agree last (has_speculated last.num_rejected) c.num_speculative_tokens starts ends
          no_tokens rows,
    )

abbrev Together : Option (List Sequence) → Option (List Sequence) → Type 0
Together none none = Unit
Together none (some b') = ⊥
Together (some b) none = ⊥
Together (some b) (some b') = AllAgree b b'

abbrev BothOr : Option Sequence → Option Sequence → Type 0
BothOr none none = Unit
BothOr none (some s') = ⊥
BothOr (some s) none = ⊥
BothOr (some s) (some s') = Agrees s s'

get-agree :
    {seqs seqs' : List Sequence} (i : ℕ)
    → AllAgree seqs seqs'
    → BothOr (get_elem? seqs i) (get_elem? seqs' i)
get-agree i AllAgree.nobody = tt
get-agree zero (AllAgree.also a rest) = a
get-agree (suc i) (AllAgree.also a rest) = get-agree i rest

join-agree :
    (o o' : Option Sequence) (r r' : Option (List Sequence))
    → BothOr o o'
    → Together r r'
    → Together
        (o >>= λ s. r >>= λ rest. some (s ∷ rest))
        (o' >>= λ s. r' >>= λ rest. some (s ∷ rest))
join-agree none none r r' a as' = tt
join-agree none (some s') r r' a as' = absurd a
join-agree (some s) none r r' a as' = absurd a
join-agree (some s) (some s') none none a as' = tt
join-agree (some s) (some s') none (some rest') a as' = absurd as'
join-agree (some s) (some s') (some rest) none a as' = absurd as'
join-agree (some s) (some s') (some rest) (some rest') a as' = AllAgree.also a as'

pick-agree :
    {seqs seqs' : List Sequence} (indices : List ℕ)
    → AllAgree seqs seqs'
    → Together (pick seqs indices) (pick seqs' indices)
unfolding pick
pick-agree [] all = AllAgree.nobody
pick-agree {seqs} {seqs'} (i ∷ indices) all =
    join-agree (get_elem? seqs i) (get_elem? seqs' i) (pick seqs indices) (pick seqs' indices)
      (get-agree i all) (pick-agree indices all)

moved_rows-agree :
    {batch batch' : List Sequence} (last : LastStep) (rejected : Option (List ℕ))
    → AllAgree batch batch'
    → moved_rows last rejected batch' ≡ moved_rows last rejected batch
moved_rows-agree last none rows = refl
moved_rows-agree last (some r) rows = moved-agree last 0 rows

place-agree :
    {seqs seqs' batch batch' : List Sequence} (c : RunnerSettings) (last : LastStep) (q : ℕ)
    (order : List ℕ)
    → AllAgree seqs seqs'
    → AllAgree batch batch'
    → place c last seqs' q order batch' ≡ place c last seqs q order batch
unfolding place
place-agree {seqs} {seqs'} {batch} {batch'} c last q order all rows =
    let lens : map (λ (s : Sequence). s.num_scheduled_tokens) seqs'
        ≡ map (λ (s : Sequence). s.num_scheduled_tokens) seqs =
      map-agree _ (λ s s' a. a.scheduled) all in
    let starts : map (λ (s : Sequence). s.num_cached_tokens) batch'
        ≡ map (λ (s : Sequence). s.num_cached_tokens) batch =
      map-agree _ (λ s s' a. a.cached) rows in
    let prompt : some_row (λ s. s.is_prefill) seqs' ≡ some_row (λ s. s.is_prefill) seqs =
      some_row-agree _ (λ s s' a. a.prefill) all in
    let drafts : some_row (λ s. not (draft_count s == 0)) seqs'
        ≡ some_row (λ s. not (draft_count s == 0)) seqs =
      some_row-agree _ (λ s s' a. ap (λ n. not (n == 0)) (draft_count-agree s s' a)) all in
    elim (Option-cases (moved_rows last last.num_rejected batch)) [
      | inl none_moved ↦ simp (moved_rows-agree last last.num_rejected rows, none_moved)
      | inr (moved, found) ↦ simp (
        moved_rows-agree last last.num_rejected rows,
        found,
        lens,
        starts,
        prompt,
        drafts,
        λ (p : Bool).
            lay_out-agree c last q p order (map (λ (s : Sequence). s.num_cached_tokens) batch) moved
              all rows,
        λ (p : Bool).
            lay_out-agree c last q p order
              (move_starts (rejected_counts last.num_rejected) moved
                (map (λ (s : Sequence). s.num_cached_tokens) batch))
              [] all rows,
      )
    ]

picked-agree :
    {seqs seqs' : List Sequence} (c : RunnerSettings) (last : LastStep) (q : ℕ) (order : List ℕ)
    (o o' : Option (List Sequence))
    → AllAgree seqs seqs'
    → Together o o'
    → (o' >>= place c last seqs' q order) ≡ (o >>= place c last seqs q order)
picked-agree c last q order none none all rows = refl
picked-agree c last q order none (some b') all rows = absurd rows
picked-agree c last q order (some b) none all rows = absurd rows
picked-agree c last q order (some b) (some b') all rows = place-agree c last q order all rows

-- A tensor-parallel rank that unpickles the sequences of a step, of which a decoding one comes with
-- no token but its last, prepares the very batch that rank 0 prepares from its own, and fails if
-- rank 0 fails.
pub prepare_batch_lem :
    (c : RunnerSettings) (last : LastStep) (unset : Sequence) (seqs seqs' : List Sequence)
    → receive unset seqs ≡ some seqs'
    → prepare_batch c last seqs' ≡ prepare_batch c last seqs
unfolding prepare_batch
prepare_batch_lem c last unset seqs seqs' h =
    let all = receive-AllAgree unset seqs seqs' h in
    let lens : map (λ (s : Sequence). s.num_scheduled_tokens) seqs'
        ≡ map (λ (s : Sequence). s.num_scheduled_tokens) seqs =
      map-agree _ (λ s s' a. a.scheduled) all in
    let q =
      decode_query_len (map (λ (s : Sequence). s.num_scheduled_tokens) seqs)
        c.num_speculative_tokens in
    let order = batch_order q (map (λ (s : Sequence). s.num_scheduled_tokens) seqs) in
    simp lens
      (picked-agree c last q order (pick seqs order) (pick seqs' order) all (pick-agree order all))
