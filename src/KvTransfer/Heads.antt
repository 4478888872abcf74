-- ===== src/KvTransfer/Heads.antt =====
-- head_shares of lean_vllm/kv_transfer/nixl_connector.py: which heads of which rank
-- a rank reads, and where they land. `none` is the ZeroDivisionError of more ranks than heads.
use native.Mathlib.Nat.{lt-div-mul-add}
use lean_vllm.Prelude.{
  ℕ, zero, suc, ◌+◌, ◌-◌, ◌*◌, ◌/◌, ◌≤◌, ◌<◌, ◌≡◌, sym, subst, ap, min, max, not, ltb, Option, some,
  List, [], ◌∷◌, arith, ◌==◌, assert, ◌>>◌, inl, inr, ◌⊎◌, Bool-cases,
}
use lean_vllm.Prelude.Blocks.{mul-add-le, div-mul-le, div_up-mul, div_mono}
use lean_vllm.KvTransfer.Nixl.{cdiv}

pub record Share : Type 0 where
  pub remote_rank : ℕ
  pub remote_head : ℕ
  pub local_head : ℕ
  pub num_heads : ℕ

-- The share of the heads from `start` to `end` that a remote rank of `remote` heads has.
unfoldable pub share : ℕ → ℕ → ℕ → ℕ → Share
share start end remote remote_rank =
    let first = max start (remote_rank * remote) in
    record {
      remote_rank = remote_rank;
      remote_head = first - remote_rank * remote;
      local_head = first - start;
      num_heads = min end ((remote_rank + 1) * remote) - first;
    }

-- The loop over `num_ranks` ranks from the given one.
unfoldable pub shares_from : ℕ → ℕ → ℕ → ℕ → ℕ → List Share
shares_from start end remote zero remote_rank = []
shares_from start end remote (suc num_ranks) remote_rank =
    share start end remote remote_rank ∷ shares_from start end remote num_ranks (remote_rank + 1)

unfoldable pub head_shares : ℕ → ℕ → ℕ → ℕ → Option (List Share)
head_shares rank tp_size remote_tp_size num_heads = do
  assert (not (tp_size == 0))
  assert (not (remote_tp_size == 0))
  let num_local = num_heads / tp_size
  let num_remote = num_heads / remote_tp_size
  let start = rank * num_local
  let end = (rank + 1) * num_local
  assert (not (num_remote == 0))
  some (
      shares_from start end num_remote (cdiv end num_remote - start / num_remote)
        (start / num_remote))

-- Shares that lie one behind the other, from one local head to another, none empty, each within
-- its rank's heads and on the same head of the model as where it lands.
abbrev pub IsTiling : ℕ → ℕ → ℕ → ℕ → List Share → Type 0
IsTiling start remote here there [] = here ≡ there
IsTiling start remote here there (s ∷ shares) =
    (s.local_head ≡ here)
    × (0 < s.num_heads)
    × (s.remote_rank * remote + s.remote_head ≡ start + here)
    × (s.remote_head + s.num_heads ≤ remote)
    × IsTiling start remote (here + s.num_heads) there shares

module _ (start end remote : ℕ) where
  -- Where the loop stands: it is done, or the rank `r` holds the next head.
  abbrev IsNext : ℕ → ℕ → ℕ → Type 0
  IsNext num_ranks r at =
      ((num_ranks ≡ 0) × (at ≡ end))
      ⊎ ((at < end)
          × (at ≡ max start (r * remote))
          × (at < r * remote + remote)
          × (end ≤ (r + num_ranks) * remote)
          × ((r + num_ranks) * remote < end + remote))

  after_share :
      (num_ranks r at : ℕ)
      → IsNext (suc num_ranks) r at
      → IsNext num_ranks (r + 1) (min end ((r + 1) * remote))
  after_share num_ranks r at (inl (none_left, _)) = absurd (omega arith)
  after_share num_ranks r at (inr (short, first, within, covers, tight)) =
      let next : (r + 1) * remote ≡ r * remote + remote = grind arith in
      let last : (r + suc num_ranks) * remote ≡ (r + 1) * remote + num_ranks * remote =
        grind arith in
      let last' : (r + 1 + num_ranks) * remote ≡ (r + 1) * remote + num_ranks * remote =
        grind arith in
      elim (Bool-cases (ltb ((r + 1) * remote) end)) [
        | inl more ↦ inr (
          ground (arith, more),
          ground (arith, more, next, within),
          ground (arith, more, next, within, first),
          ground (arith, last, last', covers),
          ground (arith, last, last', tight),
        )
        | inr enough ↦ inl (
          elim (Bool-cases (num_ranks == 0)) [
            | inl none_left ↦ ground arith
            | inr some_left ↦
                let wide : 0 * remote + remote ≤ num_ranks * remote =
                  mul-add-le 0 num_ranks remote (ground arith) in
                absurd (ground (arith, enough, last, tight, wide))
          ],
          ground (arith, enough),
        )
      ]

  shares_from-IsTiling :
      (num_ranks r here : ℕ)
      → IsNext num_ranks r (start + here)
      → IsTiling start remote here (end - start) (shares_from start end remote num_ranks r)
  unfolding shares_from share
  shares_from-IsTiling zero r here (inl (_, done)) = omega (arith, done)
  shares_from-IsTiling zero r here (inr (short, first, within, covers, tight)) =
      let e : (r + 0) * remote ≡ r * remote = grind arith in
      absurd (omega (arith, short, first, covers, e))
  shares_from-IsTiling (suc num_ranks) r here (inl (none_left, _)) = absurd (omega arith)
  shares_from-IsTiling (suc num_ranks) r here (inr (short, first, within, covers, tight)) =
      let upper : (r + 1) * remote ≡ r * remote + remote = grind arith in
      let n = (share start end remote r).num_heads in
      let reached : start + (here + n) ≡ min end ((r + 1) * remote) =
        omega (arith, short, first, within, upper) in
      (
        omega (arith, first),
        omega (arith, short, first, within, upper),
        omega (arith, first),
        omega (arith, short, first, within, upper),
        shares_from-IsTiling num_ranks (r + 1) (here + n) (
            subst (IsNext num_ranks (r + 1)) (sym reached)
              (after_share num_ranks r (start + here) (inr (short, first, within, covers, tight)))),
      )

-- Heads are split evenly, some to each rank on either side. head_shares returns shares that lie one
-- behind the other and cover the rank's heads from the first to the last: none is empty, each stays
-- within the heads of its remote rank, and each head lands where the model has the same head.
pub head_shares_lem :
    (rank tp_size remote_tp_size num_heads : ℕ)
    → 0 < tp_size
    → 0 < remote_tp_size
    → 0 < num_heads / tp_size
    → 0 < num_heads / remote_tp_size
    → (shares : List Share) × (head_shares rank tp_size remote_tp_size num_heads ≡ some shares)
      × IsTiling
          (rank * (num_heads / tp_size))
          (num_heads / remote_tp_size)
          0
          (num_heads / tp_size)
          shares
unfolding head_shares cdiv
head_shares_lem rank tp_size remote_tp_size num_heads tp rtp some_local some_remote =
    let size = num_heads / tp_size in
    let remote = num_heads / remote_tp_size in
    let start = rank * size in
    let end = (rank + 1) * size in
    let width : end ≡ start + size = grind arith in
    let q = start / remote in
    let c = (end + remote - 1) / remote in
    let ordered : q ≤ c =
      div_mono start (end + remote - 1) remote some_remote (omega (arith, width)) in
    let sum : q + (c - q) ≡ c = omega (arith, ordered) in
    let product : (q + (c - q)) * remote ≡ c * remote = ap (λ n. n * remote) sum in
    let below = div-mul-le start remote in
    let within : start < q * remote + remote = lt-div-mul-add some_remote in
    let above = div_up-mul end remote some_remote in
    let close = div-mul-le (end + remote - 1) remote in
    let tiles = shares_from-IsTiling start end remote (c - q) q 0 (
      inr (
        omega (arith, width, some_local),
        omega (arith, below),
        omega (arith, within),
        omega (arith, product, above),
        omega (arith, product, close, some_remote),
      )) in
    let size_is : end - start ≡ size = omega (arith, width) in
    (
      shares_from start end remote (c - q) q,
      ground arith,
      subst (λ n. IsTiling start remote 0 n (shares_from start end remote (c - q) q)) size_is tiles,
    )
