-- ===== src/ModelRunner/Ragged.antt =====
-- The arrays of a batch (lean_vllm/engine/model_runner.py) row by row: what its index arithmetic over
-- flattened rows comes to.
use mathlib.Core.List.{append_assoc}
use lean_vllm.Prelude.{
  ℕ, zero, suc, ◌+◌, ◌-◌, ◌≤◌, ◌≡◌, refl, sym, ap, ◌∙◌, List, [], ◌∷◌, ◌++◌, length, replicate,
  arith, length-append, length-replicate, get_elem?-append_length,
}
use lean_vllm.ModelRunner.Arrays.{or_zero, at, gather, range, repeat_each, cumsum, sum, plus, minus}
use lean_vllm.ModelRunner.Layout.{token_positions}

-- Row by row: as many numbers as the row has, from its first.
unfoldable pub ragged : List ℕ → List ℕ → List ℕ
ragged [] lens = []
ragged (s ∷ starts) [] = []
ragged (s ∷ starts) (n ∷ lens) = range n s ++ ragged starts lens

pub length-range : (n c : ℕ) → length (range n c) ≡ n
unfolding range
length-range zero c = refl
length-range (suc n) c = ap suc (length-range n (c + 1))

range-eq : (n m c d : ℕ) → n ≡ m → c ≡ d → range n c ≡ range m d
range-eq n m c d h g = cc

range-add : (n m c : ℕ) → range (n + m) c ≡ range n c ++ range m (c + n)
unfolding range
range-add zero m c = range-eq (zero + m) m c (c + zero) (omega arith) (omega arith)
range-add (suc n) m c =
    range-eq (suc n + m) (suc (n + m)) c c (omega arith) refl
    ∙ ap (◌∷◌ c) (
        range-add n m (c + 1)
        ∙ ap (λ xs. range n (c + 1) ++ xs)
            (range-eq m m (c + 1 + n) (c + suc n) refl (omega arith)))

plus-append :
    (xs ys us vs : List ℕ)
    → length xs ≡ length ys
    → plus (xs ++ us) (ys ++ vs) ≡ plus xs ys ++ plus us vs
unfolding plus
plus-append [] [] us vs h = refl
plus-append [] (y ∷ ys) us vs h = absurd (omega (arith, h))
plus-append (x ∷ xs) [] us vs h = absurd (omega (arith, h))
plus-append (x ∷ xs) (y ∷ ys) us vs h =
    ap (◌∷◌ (x + y)) (plus-append xs ys us vs (omega (arith, h)))

pub minus-append :
    (xs ys us vs : List ℕ)
    → length xs ≡ length ys
    → minus (xs ++ us) (ys ++ vs) ≡ minus xs ys ++ minus us vs
unfolding minus
minus-append [] [] us vs h = refl
minus-append [] (y ∷ ys) us vs h = absurd (omega (arith, h))
minus-append (x ∷ xs) [] us vs h = absurd (omega (arith, h))
minus-append (x ∷ xs) (y ∷ ys) us vs h =
    ap (◌∷◌ (x - y)) (minus-append xs ys us vs (omega (arith, h)))

pub length-plus : (xs ys : List ℕ) → length xs ≡ length ys → length (plus xs ys) ≡ length xs
unfolding plus
length-plus [] ys h = refl
length-plus (x ∷ xs) [] h = absurd (omega (arith, h))
length-plus (x ∷ xs) (y ∷ ys) h = ap suc (length-plus xs ys (omega (arith, h)))

gather-append : (xs is js : List ℕ) → gather xs (is ++ js) ≡ gather xs is ++ gather xs js
unfolding gather
gather-append xs [] js = refl
gather-append xs (i ∷ is) js = ap (◌∷◌ (at xs i)) (gather-append xs is js)

gather-replicate : (xs : List ℕ) (n i : ℕ) → gather xs (replicate n i) ≡ replicate n (at xs i)
unfolding gather
gather-replicate xs zero i = refl
gather-replicate xs (suc n) i = ap (◌∷◌ (at xs i)) (gather-replicate xs n i)

-- Reading an array at the row of each token repeats it by the rows' lengths.
gather-repeat_from :
    (pre xs lens : List ℕ)
    → length lens ≤ length xs
    → gather (pre ++ xs) (repeat_each (range (length lens) (length pre)) lens) ≡ repeat_each xs lens
unfolding range repeat_each gather
gather-repeat_from pre [] [] h = refl
gather-repeat_from pre (x ∷ xs) [] h = refl
gather-repeat_from pre [] (n ∷ lens) h = absurd (omega (arith, h))
gather-repeat_from pre (x ∷ xs) (n ∷ lens) h =
    let rows = range (length lens) (length pre + 1) in
    let here : at (pre ++ x ∷ xs) (length pre) ≡ x =
      ap or_zero (get_elem?-append_length pre xs x (length pre) refl) in
    let next : (pre ++ x ∷ []) ++ xs ≡ pre ++ x ∷ xs = append_assoc pre (x ∷ []) xs in
    let more : length (pre ++ x ∷ []) ≡ length pre + 1 = length-append pre (x ∷ []) in
    let rest : gather (pre ++ x ∷ xs) (repeat_each rows lens) ≡ repeat_each xs lens =
      ap (λ ys. gather ys (repeat_each rows lens)) (sym next)
      ∙ ap (λ k. gather ((pre ++ x ∷ []) ++ xs) (repeat_each (range (length lens) k) lens))
          (sym more)
      ∙ gather-repeat_from (pre ++ x ∷ []) xs lens (omega (arith, h)) in
    gather-append (pre ++ x ∷ xs) (replicate n (length pre)) (repeat_each rows lens)
    ∙ ap (λ ys. ys ++ gather (pre ++ x ∷ xs) (repeat_each rows lens))
        (gather-replicate (pre ++ x ∷ xs) n (length pre) ∙ ap (λ v. replicate n v) here)
    ∙ ap (λ ys. replicate n x ++ ys) rest

pub gather-repeat :
    (xs lens : List ℕ)
    → length lens ≤ length xs
    → gather xs (repeat_each (range (length lens) 0) lens) ≡ repeat_each xs lens
gather-repeat xs lens h = gather-repeat_from [] xs lens h

-- One row of the index arithmetic: its start and its tokens' indices less the row's first index.
row_positions :
    (n s c i t : ℕ)
    → s + i ≡ t + c
    → minus (plus (replicate n s) (range n i)) (replicate n c) ≡ range n t
unfolding minus plus range
row_positions zero s c i t h = refl
row_positions (suc n) s c i t h =
    let head : s + i - c ≡ t = omega (arith, h) in
    let tail : minus (plus (replicate n s) (range n (i + 1))) (replicate n c) ≡ range n (t + 1) =
      row_positions n s c (i + 1) (t + 1) (omega (arith, h)) in
    simp (head, tail)

positions_from :
    (starts lens : List ℕ) (c : ℕ)
    → length lens ≡ length starts
    → minus
        (plus (repeat_each starts lens) (range (sum lens) c))
        (repeat_each (c ∷ cumsum c lens) lens)
      ≡ ragged starts lens
unfolding plus minus range sum repeat_each cumsum ragged
positions_from [] [] c h = refl
positions_from (s ∷ starts) [] c h = refl
positions_from [] (n ∷ lens) c h = absurd (omega (arith, h))
positions_from (s ∷ starts) (n ∷ lens) c h =
    let xs = replicate n s in
    let ys = range n c in
    let zs = replicate n c in
    let xs' = repeat_each starts lens in
    let ys' = range (sum lens) (c + n) in
    let zs' = repeat_each ((c + n) ∷ cumsum (c + n) lens) lens in
    let same : length xs ≡ length ys = length-replicate n s ∙ sym (length-range n c) in
    let same' : length (plus xs ys) ≡ length zs =
      length-plus xs ys same ∙ length-replicate n s ∙ sym (length-replicate n c) in
    ap (λ is. minus (plus (xs ++ xs') is) (zs ++ zs')) (range-add n (sum lens) c)
    ∙ ap (λ is. minus is (zs ++ zs')) (plus-append xs ys xs' ys' same)
    ∙ minus-append (plus xs ys) zs (plus xs' ys') zs' same'
    ∙ ap (λ is. is ++ minus (plus xs' ys') zs') (row_positions n s c c s refl)
    ∙ ap (λ is. range n s ++ is) (positions_from starts lens (c + n) (omega (arith, h)))

length-cumsum : (c : ℕ) (xs : List ℕ) → length (cumsum c xs) ≡ length xs
unfolding cumsum
length-cumsum c [] = refl
length-cumsum c (x ∷ xs) = ap suc (length-cumsum (c + x) xs)

-- For any starts and lengths of as many rows, the flattened index arithmetic of the positions (a
-- token's start, plus its index, less its row's first index) counts up from each row's start for the
-- row's length, one row behind the other.
pub token_positions_lem :
    (starts lens : List ℕ)
    → length lens ≡ length starts
    → token_positions starts lens (repeat_each (range (length lens) 0) lens) ≡ ragged starts lens
unfolding token_positions
token_positions_lem starts lens h =
    let sums : length lens ≤ length (0 ∷ cumsum 0 lens) = omega (arith, length-cumsum 0 lens) in
    ap
      (λ xs.
        minus (plus xs (range (sum lens) 0))
          (gather (0 ∷ cumsum 0 lens) (repeat_each (range (length lens) 0) lens)))
      (gather-repeat starts lens (omega (arith, h)))
    ∙ ap (λ xs. minus (plus (repeat_each starts lens) (range (sum lens) 0)) xs)
        (gather-repeat (0 ∷ cumsum 0 lens) lens sums)
    ∙ positions_from starts lens 0 h

-- Moving rows back by at most their starts moves each of their positions.
row_back : (n s b : ℕ) → b ≤ s → minus (range n s) (replicate n b) ≡ range n (s - b)
unfolding minus range
row_back zero s b h = refl
row_back (suc n) s b h = ap (◌∷◌ (s - b)) (
    row_back n (s + 1) b (omega (arith, h))
    ∙ range-eq n n (s + 1 - b) (s - b + 1) refl (omega (arith, h)))

-- Each is at most its counterpart.
unfoldable pub AllBelow : List ℕ → List ℕ → Type 0
AllBelow [] ys = Unit
AllBelow (x ∷ xs) [] = ⊥
AllBelow (x ∷ xs) (y ∷ ys) = (x ≤ y) × AllBelow xs ys

pub minus-ragged :
    (back starts lens : List ℕ)
    → length back ≡ length starts
    → length lens ≡ length starts
    → AllBelow back starts
    → minus (ragged starts lens) (repeat_each back lens) ≡ ragged (minus starts back) lens
unfolding ragged minus repeat_each AllBelow
minus-ragged [] [] [] h g below = refl
minus-ragged [] [] (n ∷ lens) h g below = refl
minus-ragged [] (s ∷ starts) lens h g below = absurd (omega (arith, h))
minus-ragged (b ∷ back) [] lens h g below = absurd (omega (arith, h))
minus-ragged (b ∷ back) (s ∷ starts) [] h g below = refl
minus-ragged (b ∷ back) (s ∷ starts) (n ∷ lens) h g below =
    minus-append (range n s) (replicate n b) (ragged starts lens) (repeat_each back lens)
      (length-range n s ∙ sym (length-replicate n b))
    ∙ ap (λ xs. xs ++ minus (ragged starts lens) (repeat_each back lens)) (row_back n s b below.0)
    ∙ ap (λ xs. range n (s - b) ++ xs)
        (minus-ragged back starts lens (omega (arith, h)) (omega (arith, g)) below.1)

length-minus : (xs ys : List ℕ) → length xs ≡ length ys → length (minus xs ys) ≡ length xs
unfolding minus
length-minus [] ys h = refl
length-minus (x ∷ xs) [] h = absurd (omega (arith, h))
length-minus (x ∷ xs) (y ∷ ys) h = ap suc (length-minus xs ys (omega (arith, h)))

-- The positions of rows that were moved back first.
pub moved_positions :
    (back starts lens : List ℕ)
    → length back ≡ length starts
    → length lens ≡ length starts
    → AllBelow back starts
    → minus
        (token_positions starts lens (repeat_each (range (length lens) 0) lens))
        (gather back (repeat_each (range (length lens) 0) lens))
      ≡ token_positions (minus starts back) lens (repeat_each (range (length lens) 0) lens)
moved_positions back starts lens h g below =
    let rows = repeat_each (range (length lens) 0) lens in
    ap (λ xs. minus xs (gather back rows)) (token_positions_lem starts lens g)
    ∙ ap (λ xs. minus (ragged starts lens) xs) (gather-repeat back lens (omega (arith, h, g)))
    ∙ minus-ragged back starts lens h g below
    ∙ sym
        (token_positions_lem (minus starts back) lens (g ∙ sym (length-minus starts back (sym h))))
