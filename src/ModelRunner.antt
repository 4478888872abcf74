-- ===== src/ModelRunner.antt =====
-- The decisions of lean_vllm/engine/model_runner.py about CUDA graphs and query lengths: which sizes
-- are captured, which query length decodes together, and how a step runs. ModelRunner.Batch is
-- prepare_batch. Tensors, graphs and kernels are not part of this.
pub mod Arrays
pub mod Batch
pub mod Layout
pub mod Ragged
pub mod Rejection
pub mod Sizes
pub mod Agreement
pub mod Ranks
pub mod Moves
use lean_vllm.Prelude.{
  ℕ, zero, suc, ◌+◌, ◌-◌, ◌*◌, ◌/◌, min, max, String, str_eq, Bool, true, false, not, ◌&&◌, ◌||◌,
  Option, none, some, List, [], ◌∷◌, ◌++◌, ltb, leb, ◌==◌, if◌then◌else◌, length, get_last?,
}
use lean_vllm.Prelude.Counting.{count}

-- `range(start, stop, step)` of `n` members at most.
unfoldable pub steps_below : ℕ → ℕ → ℕ → ℕ → List ℕ
steps_below zero start stop step = []
steps_below (suc n) start stop step =
    let rest = steps_below n (start + step) stop step in if ltb start stop then start ∷ rest else []

-- The members that are not above the limit.
unfoldable pub up_to : ℕ → List ℕ → List ℕ
up_to limit [] = []
up_to limit (x ∷ xs) = let rest = up_to limit xs in if leb x limit then x ∷ rest else rest

-- `sorted(set(...))`, one member at a time.
unfoldable pub insert : ℕ → List ℕ → List ℕ
insert x [] = x ∷ []
insert x (y ∷ ys) =
    let rest = insert x ys in if ltb x y then x ∷ y ∷ ys else if x == y then y ∷ ys else y ∷ rest

unfoldable pub sorted_set : List ℕ → List ℕ
sorted_set [] = []
sorted_set (x ∷ xs) = insert x (sorted_set xs)

abbrev pub capture_limit : ℕ → ℕ → ℕ
capture_limit max_num_seqs max_num_batched_tokens =
    min (min (max_num_seqs * 2) 512) max_num_batched_tokens

-- The multiples of 8 are 31 at most, those of 16 from 256 to 512 are 17.
unfoldable pub cudagraph_capture_sizes : ℕ → ℕ → List ℕ
cudagraph_capture_sizes max_num_seqs max_num_batched_tokens =
    let top = capture_limit max_num_seqs max_num_batched_tokens in
    sorted_set (
      up_to top (1 ∷ 2 ∷ 4 ∷ [])
      ++ steps_below 31 8 (min (top + 1) 256) 8
      ++ steps_below 17 256 (top + 1) 16
      ++ (if leb max_num_batched_tokens top then max_num_batched_tokens ∷ [] else []))

-- _decode_graph_sizes
unfoldable pub decode_graph_sizes : ℕ → ℕ → List ℕ
decode_graph_sizes max_num_seqs max_num_batched_tokens =
    up_to max_num_seqs (cudagraph_capture_sizes max_num_seqs max_num_batched_tokens)

-- The choice of graph_bs in capture_cudagraph: `bs * q <= max_num_batched_tokens`.
unfoldable pub full_graph_sizes : ℕ → ℕ → List ℕ → List ℕ
full_graph_sizes q max_num_batched_tokens [] = []
full_graph_sizes q max_num_batched_tokens (bs ∷ sizes) =
    let rest = full_graph_sizes q max_num_batched_tokens sizes in
    if leb (bs * q) max_num_batched_tokens then bs ∷ rest else rest

-- _max_num_blocks
unfoldable pub max_num_blocks : ℕ → ℕ → ℕ → ℕ
max_num_blocks max_model_len num_speculative_tokens block_size =
    (max_model_len + num_speculative_tokens + block_size - 1) / block_size

-- The first of the sizes that is large enough: the `next` of _replay_full and _piecewise_bucket.
unfoldable pub first_fitting : ℕ → List ℕ → Option ℕ
first_fitting n [] = none
first_fitting n (size ∷ sizes) =
    let rest = first_fitting n sizes in if leb n size then some size else rest

abbrev pub fits_least : ℕ → List ℕ → Bool
fits_least num_tokens [] = false
fits_least num_tokens (size ∷ sizes) = leb size num_tokens

-- _piecewise_bucket
unfoldable pub piecewise_bucket : List ℕ → ℕ → Option ℕ
piecewise_bucket piecewise_bs num_tokens =
    if fits_least num_tokens piecewise_bs then first_fitting num_tokens piecewise_bs else none

-- np.bincount, of values below `n`.
unfoldable pub counts_from : ℕ → ℕ → List ℕ → List ℕ
counts_from zero v xs = []
counts_from (suc n) v xs = count v xs ∷ counts_from n (v + 1) xs

-- np.argmax, the first index of a greatest value: the index of the best so far, that value, and
-- the next index.
unfoldable pub argmax_from : ℕ → ℕ → ℕ → List ℕ → ℕ
argmax_from best value i [] = best
argmax_from best value i (x ∷ xs) =
    if ltb value x then argmax_from i x (i + 1) xs else argmax_from best value (i + 1) xs

abbrev pub argmax : List ℕ → ℕ
argmax [] = 0
argmax (x ∷ xs) = argmax_from 0 x 1 xs

-- decode_query_len; the lengths kept are at most 1 + num_speculative_tokens, and bincount's zeros
-- above the greatest of them change nothing.
unfoldable pub decode_query_len : List ℕ → ℕ → ℕ
decode_query_len lens num_speculative_tokens =
    let short = up_to (1 + num_speculative_tokens) lens in
    if length short == 0 then 1 else argmax (counts_from (2 + num_speculative_tokens) 0 short)

-- FULL_MODES and PIECEWISE_MODES
unfoldable pub is_full_mode : String → Bool
is_full_mode mode = str_eq mode "full" || str_eq mode "full_and_piecewise"

unfoldable pub is_piecewise_mode : String → Bool
is_piecewise_mode mode = str_eq mode "piecewise" || str_eq mode "full_and_piecewise"

-- _cudagraph_mode, with whether every layer supports full graphs.
unfoldable pub supported_mode : String → Bool → String
supported_mode mode all_supported =
    if is_full_mode mode && not all_supported
    then (if is_piecewise_mode mode then "piecewise" else "none")
    else mode

-- What the runner has captured.
pub record Graphs : Type 0 where
  pub cudagraph_mode : String
  pub graph_bs : List ℕ
  pub graph_query_len : ℕ
  pub piecewise_bs : List ℕ

-- `num_tokens <= self.graph_bs[-1] * query_len`, where there is a size.
abbrev pub within : Option ℕ → ℕ → ℕ → Bool
within none num_tokens query_len = false
within (some largest) num_tokens query_len = leb num_tokens (largest * query_len)

abbrev pub is_some {ℓ} : {A : Type ℓ} → Option A → Bool
is_some none = false
is_some (some a) = true

-- _step_kind
unfoldable pub step_kind : Graphs → Bool → ℕ → ℕ → String
step_kind g is_prefill num_tokens query_len =
    if str_eq g.cudagraph_mode "none"
    then "enforced"
    else if not is_prefill
        && is_full_mode g.cudagraph_mode
        && query_len == g.graph_query_len
        && within (get_last? g.graph_bs) num_tokens query_len
    then "graph"
    else if is_piecewise_mode g.cudagraph_mode
        && is_some (piecewise_bucket g.piecewise_bs num_tokens)
    then "piecewise"
    else if is_prefill
    then "prefill"
    else "decode"

-- The choice of _replay_full: the graph of the fewest rows that is large enough; none is its
-- StopIteration.
unfoldable pub replay_size : Graphs → ℕ → Option ℕ
replay_size g num_tokens = first_fitting (num_tokens / g.graph_query_len) g.graph_bs
