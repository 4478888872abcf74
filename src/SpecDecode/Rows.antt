-- ===== src/SpecDecode/Rows.antt =====
-- The rows of a speculative step, as the runner sends them and as split_sampled reads them.
use mathlib.Core.Path.{ap₂}
use lean_vllm.Prelude.{
  ℕ, zero, suc, ◌+◌, ◌≤◌, ◌≡◌, refl, ap, Option, none, some, List, [], ◌∷◌, arith, length, take,
  drop,
}
use lean_vllm.SpecDecode.{present, new_rows, draft_rows, split_sampled}

-- The row that the runner sends for some tokens and drafts: `width` columns of tokens, padded with
-- -1, and then the drafts.
unfoldable pub packed : ℕ → List ℕ → List (Option ℕ) → List (Option ℕ)
packed zero tokens drafts = drafts
packed (suc width) [] drafts = none ∷ packed width [] drafts
packed (suc width) (t ∷ tokens) drafts = some t ∷ packed width tokens drafts

present-packed :
    (width : ℕ) (tokens : List ℕ) (drafts : List (Option ℕ))
    → length tokens ≤ width
    → (present (take width (packed width tokens drafts)) ≡ tokens)
      × (drop width (packed width tokens drafts) ≡ drafts)
unfolding present packed
present-packed zero [] drafts h = (refl, refl)
present-packed zero (t ∷ tokens) drafts h = absurd (omega arith)
present-packed (suc width) [] drafts h = present-packed width [] drafts (omega arith)
present-packed (suc width) (t ∷ tokens) drafts h =
    let (a, b) = present-packed width tokens drafts (omega arith) in (ap (◌∷◌ t) a, b)

-- What a step sampled: for each row its new tokens and the drafts for the next step.
abbrev pub packed_rows : ℕ → List (List ℕ × List (Option ℕ)) → List (List (Option ℕ))
packed_rows width [] = []
packed_rows width ((tokens, drafts) ∷ rows) = packed width tokens drafts ∷ packed_rows width rows

abbrev pub tokens_of : List (List ℕ × List (Option ℕ)) → List (List ℕ)
tokens_of [] = []
tokens_of ((tokens, drafts) ∷ rows) = tokens ∷ tokens_of rows

abbrev pub drafts_of : List (List ℕ × List (Option ℕ)) → List (List (Option ℕ))
drafts_of [] = []
drafts_of ((tokens, drafts) ∷ rows) = drafts ∷ drafts_of rows

-- No row has more tokens than columns for them.
abbrev pub Fits : ℕ → List (List ℕ × List (Option ℕ)) → Type 0
Fits width [] = Unit
Fits width ((tokens, drafts) ∷ rows) = (length tokens ≤ width) × Fits width rows

rows-packed :
    (width : ℕ) (rows : List (List ℕ × List (Option ℕ)))
    → Fits width rows
    → (new_rows width (packed_rows width rows) ≡ tokens_of rows)
      × (draft_rows width (packed_rows width rows) ≡ drafts_of rows)
rows-packed width [] h = (refl, refl)
rows-packed width ((tokens, drafts) ∷ rows) h =
    let (a, b) = present-packed width tokens drafts (h.0) in
    let (new, kept) = rows-packed width rows (h.1) in (ap₂ ◌∷◌ a new, ap₂ ◌∷◌ b kept)

-- Each row gives back its tokens and its drafts, if it has at most one token more than the drafts
-- of a step.
pub split_sampled-packed :
    (num_speculative_tokens : ℕ) (rows : List (List ℕ × List (Option ℕ)))
    → Fits (num_speculative_tokens + 1) rows
    → split_sampled (packed_rows (num_speculative_tokens + 1) rows) num_speculative_tokens
      ≡ (tokens_of rows, drafts_of rows)
unfolding split_sampled
split_sampled-packed num_speculative_tokens rows h =
    let (new, drafts) = rows-packed (num_speculative_tokens + 1) rows h in
    ap₂ (λ a b. (a, b)) new drafts
