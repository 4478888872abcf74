-- ===== src/ModelRunner/Rejection.antt =====
-- Rejected drafts of a step still in flight (lean_vllm/engine/model_runner.py): rows moved back on the
-- host before the batch is laid out, or on the device after it by _move_back.
use mathlib.Core.Option.{some-injective}
use lean_vllm.Prelude.{
  subst, ℕ, ◌+◌, ◌-◌, ◌≡◌, refl, sym, ap, ◌∙◌, Bool, Option, none, some, List, [], ◌∷◌, length,
  replicate, map, arith, length-replicate, length-map, ◌>>=◌,
}
use lean_vllm.Sequence.{Sequence}
use lean_vllm.ModelRunner.Arrays.{gather, range, repeat_each, cumsum, plus, minus}
use lean_vllm.ModelRunner.Batch.{
  RunnerSettings, LastStep, Batch, BatchTokens, move_starts, moved_from,
}
use lean_vllm.ModelRunner.Layout.{moved_back, move_back, lay_out, token_positions}
use lean_vllm.ModelRunner.Ragged.{AllBelow, length-plus, moved_positions}
use lean_vllm.ModelRunner.Moves.{moved_from-Increasing, length-moved_back, move_starts-minus}

minus-plus :
    (starts lens back : List ℕ)
    → AllBelow back starts
    → minus (plus starts lens) back ≡ plus (minus starts back) lens
unfolding minus plus AllBelow
minus-plus [] lens back below = refl
minus-plus (s ∷ starts) [] [] below = refl
minus-plus (s ∷ starts) [] (b ∷ back) below = refl
minus-plus (s ∷ starts) (n ∷ lens) [] below = refl
minus-plus (s ∷ starts) (n ∷ lens) (b ∷ back) below =
    let head : s + n - b ≡ s - b + n = omega (arith, below.0) in
    simp (head, minus-plus starts lens back below.1)

-- What a batch has of its starts.
record Laid (starts : List ℕ) (batch : List Sequence) (moved : List (ℕ × ℕ)) (b : Batch)
    : Type 0 where
  lens : b.lens ≡ map (λ (s : Sequence). s.num_scheduled_tokens) batch
  ends : b.context_lens ≡ plus starts b.lens
  keys : b.cu_seqlens_k ≡ 0 ∷ cumsum 0 b.context_lens
  rows : b.moved ≡ moved
  positions :
      b.positions ≡ token_positions starts b.lens (repeat_each (range (length batch) 0) b.lens)

with_tokens-Laid :
    (starts : List ℕ) (batch : List Sequence) (moved : List (ℕ × ℕ)) (b : Batch)
    (o : Option BatchTokens) (f : BatchTokens → Batch)
    → ((t : BatchTokens) → Laid starts batch moved (f t))
    → (o >>= λ t. some (f t)) ≡ some b
    → Laid starts batch moved b
with_tokens-Laid starts batch moved b none f laid h = absurd cc
with_tokens-Laid starts batch moved b (some t) f laid h =
    subst (λ x. Laid starts batch moved x) (some-injective _ _ h) (laid t)

lay_out-Laid :
    (c : RunnerSettings) (last : LastStep) (seqs batch : List Sequence) (q : ℕ) (p : Bool)
    (order starts : List ℕ) (moved : List (ℕ × ℕ)) (b : Batch)
    → lay_out c last seqs batch q p order starts moved ≡ some b
    → Laid starts batch moved b
unfolding lay_out
lay_out-Laid c last seqs batch q p order starts moved b h =
    with_tokens-Laid starts batch moved b _ _
      (λ t. record { lens = refl; ends = refl; keys = refl; rows = refl; positions = refl }) h

-- Take the rows of a batch with the starts that hold if every draft in flight is accepted, and the
-- rejections of the rows to move, none of which exceeds its row's start. Laid out and then moved
-- back by the device, the batch has the positions, the key lengths and their sums that it has when
-- the host moves the starts first and then lays it out.
pub move_back_lem :
    (c : RunnerSettings) (last : LastStep) (seqs batch : List Sequence) (q : ℕ) (p : Bool)
    (order starts rejected : List ℕ) (moved : List (ℕ × ℕ)) (tables : List (List ℕ)) (b b' : Batch)
    → length starts ≡ length batch
    → moved_from last 0 batch ≡ some moved
    → AllBelow (moved_back rejected moved (replicate (length starts) 0)) starts
    → lay_out c last seqs batch q p order starts moved ≡ some b
    → lay_out c last seqs batch q p order (move_starts rejected moved starts) [] ≡ some b'
    → ((move_back c.block_size rejected tables b).positions ≡ b'.positions)
      × ((move_back c.block_size rejected tables b).context_lens ≡ b'.context_lens)
      × ((move_back c.block_size rejected tables b).cu_seqlens_k ≡ b'.cu_seqlens_k)
unfolding move_back
move_back_lem c last seqs batch q p order starts rejected moved tables b b' size found below h h' =
    let d = lay_out-Laid c last seqs batch q p order starts moved b h in
    let d' =
      lay_out-Laid c last seqs batch q p order (move_starts rejected moved starts) [] b' h' in
    let back = moved_back rejected moved (replicate (length starts) 0) in
    let rows = repeat_each (range (length b.lens) 0) b.lens in
    let lens_size : length b.lens ≡ length batch = ap length d.lens ∙ length-map _ batch in
    let back_size : length back ≡ length starts =
      length-moved_back rejected moved _ ∙ length-replicate (length starts) 0 in
    let ends_size : length b.context_lens ≡ length starts =
      ap length d.ends ∙ length-plus starts b.lens (size ∙ sym lens_size) in
    let moves : move_starts rejected moved starts ≡ minus starts back =
      move_starts-minus rejected moved 0 starts
        (moved_from-Increasing last 0 0 batch moved (omega arith) found) in
    let same : b.lens ≡ b'.lens = d.lens ∙ sym d'.lens in
    let e : moved_back rejected b.moved (replicate (length b.context_lens) 0) ≡ back =
      ap (λ m. moved_back rejected m (replicate (length b.context_lens) 0)) d.rows
      ∙ ap (λ n. moved_back rejected moved (replicate n 0)) ends_size in
    let lens : minus b.context_lens
          (moved_back rejected b.moved (replicate (length b.context_lens) 0))
        ≡ b'.context_lens =
      ap (λ xs. minus b.context_lens xs) e
      ∙ ap (λ xs. minus xs back) d.ends
      ∙ minus-plus starts b.lens back below
      ∙ ap (λ xs. plus xs b.lens) (sym moves)
      ∙ ap (λ xs. plus (move_starts rejected moved starts) xs) same
      ∙ sym d'.ends in
    (
      ap (λ xs. minus b.positions (gather xs rows)) e
          ∙ ap (λ xs. minus xs (gather back rows)) d.positions
          ∙ ap
              (λ n.
                minus (token_positions starts b.lens (repeat_each (range n 0) b.lens))
                  (gather back rows))
              (sym lens_size)
          ∙ moved_positions back starts b.lens back_size (lens_size ∙ sym size) below
          ∙ ap (λ xs. token_positions xs b.lens rows) (sym moves)
          ∙ ap
              (λ n.
                token_positions (move_starts rejected moved starts) b.lens
                  (repeat_each (range n 0) b.lens))
              lens_size
          ∙ ap
              (λ xs.
                token_positions (move_starts rejected moved starts) xs
                  (repeat_each (range (length batch) 0) xs))
              same
          ∙ sym d'.positions,
      lens,
      ap (λ xs. 0 ∷ cumsum 0 xs) lens ∙ sym d'.keys,
    )
