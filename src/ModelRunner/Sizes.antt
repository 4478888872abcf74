-- ===== src/ModelRunner/Sizes.antt =====
-- The sizes of graphs that lean_vllm/engine/model_runner.py captures and replays.
use mathlib.Core.Option.{some-injective}
use lean_vllm.Prelude.{
  ℕ, ◌*◌, ◌/◌, ◌≤◌, ◌<◌, ◌≡◌, refl, sym, ap, ◌∙◌, inl, inr, String, str_eq, str_eq_iff, Bool, true,
  false, not, ◌&&◌, Option, none, some, List, [], ◌∷◌, leb, ◌==◌, if◌then◌else◌, get_last?, arith,
  Bool-cases,
}
use lean_vllm.Prelude.Counting.{contains}
use lean_vllm.Prelude.Blocks.{div-le}
use lean_vllm.ModelRunner.{
  Graphs, is_some, within, first_fitting, piecewise_bucket, step_kind, is_full_mode,
  is_piecewise_mode, replay_size,
}

-- A size that is found is large enough, and there is one if the last is.
pub first_fitting_lem :
    (n : ℕ) (sizes : List ℕ) (last : ℕ)
    → get_last? sizes ≡ some last
    → n ≤ last
    → (size : ℕ) × (first_fitting n sizes ≡ some size) × (n ≤ size) × (contains size sizes ≡ true)
unfolding first_fitting
first_fitting_lem n [] last h below = absurd cc
first_fitting_lem n (s ∷ []) last h below =
    let e : s ≡ last = some-injective _ _ h in
    (s, ground (arith, e, below), omega (arith, e, below), ground arith)
first_fitting_lem n (s ∷ t ∷ sizes) last h below = elim (Bool-cases (leb n s)) [
  | inl fits ↦ (s, ground (arith, fits), ground (arith, fits), ground arith)
  | inr small ↦
      let (size, found, large, member) = first_fitting_lem n (t ∷ sizes) last h below in
      (size, simp small found, large, ground (arith, member))
]

abbrev graph_test : Graphs → Bool → ℕ → ℕ → Bool
graph_test g p n q =
    not p
    && is_full_mode g.cudagraph_mode
    && q == g.graph_query_len
    && within (get_last? g.graph_bs) n q

within-is_some :
    (n q : ℕ) (sizes : List ℕ) (last : Option ℕ)
    → get_last? sizes ≡ last
    → 0 < q
    → within last n q ≡ true
    → (size : ℕ) × (first_fitting (n / q) sizes ≡ some size) × (n / q ≤ size)
within-is_some n q sizes none h pos w = absurd cc
within-is_some n q sizes (some last) h pos w =
    let below : n ≤ last * q = ground arith in
    let (size, found, large, member) =
      first_fitting_lem (n / q) sizes last h (div-le last n q pos below) in
    (size, found, large)

other_kind : (a b : String) → str_eq a b ≡ false → a ≡ b → ⊥
other_kind a b h e = absurd (ground (arith, str_eq_iff a b, h, e))

-- The label by the outcomes of its tests.
kind_by : (off graph piece is_prefill : Bool) → String
kind_by off graph piece is_prefill =
    if off
    then "enforced"
    else if graph
    then "graph"
    else if piece
    then "piecewise"
    else if is_prefill
    then "prefill"
    else "decode"

kind_by_lem :
    (off graph piece p : Bool)
    → (kind_by off graph piece p ≡ "graph" → graph ≡ true)
      × (kind_by off graph piece p ≡ "piecewise" → piece ≡ true)
unfolding kind_by
kind_by_lem true graph piece p = (
  λ h. absurd (other_kind "enforced" "graph" refl h),
  λ h. absurd (other_kind "enforced" "piecewise" refl h),
)
kind_by_lem false true piece p = (λ h. refl, λ h. absurd (other_kind "graph" "piecewise" refl h))
kind_by_lem false false true p = (λ h. absurd (other_kind "piecewise" "graph" refl h), λ h. refl)
kind_by_lem false false false true = (
  λ h. absurd (other_kind "prefill" "graph" refl h),
  λ h. absurd (other_kind "prefill" "piecewise" refl h),
)
kind_by_lem false false false false = (
  λ h. absurd (other_kind "decode" "graph" refl h),
  λ h. absurd (other_kind "decode" "piecewise" refl h),
)

-- For a positive query length: a step that is labelled "graph" is a decode step of the captured
-- query length, and its replay finds a captured size with room for its rows; one that is labelled
-- "piecewise" finds a bucket.
pub step_kind_lem :
    (g : Graphs) (is_prefill : Bool) (num_tokens query_len : ℕ)
    → 0 < query_len
    → (step_kind g is_prefill num_tokens query_len ≡ "graph"
        → (is_prefill ≡ false)
          × (query_len ≡ g.graph_query_len)
          × (size : ℕ) × (replay_size g num_tokens ≡ some size)
          × (num_tokens / query_len ≤ size))
      × (step_kind g is_prefill num_tokens query_len ≡ "piecewise"
          → is_some (piecewise_bucket g.piecewise_bs num_tokens) ≡ true)
unfolding step_kind replay_size kind_by
step_kind_lem g p n q pos =
    let kinds =
      kind_by_lem (str_eq g.cudagraph_mode "none") (graph_test g p n q)
        (is_piecewise_mode g.cudagraph_mode && is_some (piecewise_bucket g.piecewise_bs n)) p in
    (
      λ h.
          let t : graph_test g p n q ≡ true = kinds.0 h in
          let same : q ≡ g.graph_query_len = ground (arith, t) in
          let (size, found, large) =
            within-is_some n q g.graph_bs (get_last? g.graph_bs) refl pos (ground (arith, t)) in
          (
            ground (arith, t),
            same,
            size,
            ap (λ k. first_fitting (n / k) g.graph_bs) (sym same) ∙ found,
            large,
          ),
      λ h. let t = kinds.1 h in ground (arith, t),
    )
