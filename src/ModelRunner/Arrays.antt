-- ===== src/ModelRunner/Arrays.antt =====
-- The numpy calls of prepare_batch (lean_vllm/engine/model_runner.py), on lists. An index past an
-- array's end, which the source never has, reads 0.
use lean_vllm.Prelude.{
  max, ℕ, zero, suc, ◌+◌, ◌-◌, Option, none, some, List, [], ◌∷◌, ◌++◌, ◌==◌, if◌then◌else◌,
  get_elem?, replicate,
}

abbrev pub or_zero : Option ℕ → ℕ
or_zero none = 0
or_zero (some n) = n

abbrev pub at : List ℕ → ℕ → ℕ
at xs i = or_zero (get_elem? xs i)

-- `xs[indices]`
unfoldable pub gather : List ℕ → List ℕ → List ℕ
gather xs [] = []
gather xs (i ∷ indices) = at xs i ∷ gather xs indices

-- `np.arange`, of n numbers from a first one.
unfoldable pub range : ℕ → ℕ → List ℕ
range zero first = []
range (suc n) first = first ∷ range n (first + 1)

-- `np.repeat(xs, times)`
unfoldable pub repeat_each : List ℕ → List ℕ → List ℕ
repeat_each [] times = []
repeat_each (x ∷ xs) [] = []
repeat_each (x ∷ xs) (n ∷ times) = replicate n x ++ repeat_each xs times

-- `np.cumsum`, of what follows a sum.
unfoldable pub cumsum : ℕ → List ℕ → List ℕ
cumsum before [] = []
cumsum before (x ∷ xs) = (before + x) ∷ cumsum (before + x) xs

unfoldable pub sum : List ℕ → ℕ
sum [] = 0
sum (x ∷ xs) = x + sum xs

-- Elementwise sums and differences.
unfoldable pub plus : List ℕ → List ℕ → List ℕ
plus [] ys = []
plus (x ∷ xs) [] = []
plus (x ∷ xs) (y ∷ ys) = (x + y) ∷ plus xs ys

unfoldable pub minus : List ℕ → List ℕ → List ℕ
minus [] ys = []
minus (x ∷ xs) [] = []
minus (x ∷ xs) (y ∷ ys) = (x - y) ∷ minus xs ys

-- The indices from `i` on of the members that equal `n`, or of those that do not.
unfoldable pub where_equal : ℕ → ℕ → List ℕ → List ℕ
where_equal n i [] = []
where_equal n i (x ∷ xs) = let rest = where_equal n (i + 1) xs in if x == n then i ∷ rest else rest

unfoldable pub where_other : ℕ → ℕ → List ℕ → List ℕ
where_other n i [] = []
where_other n i (x ∷ xs) = let rest = where_other n (i + 1) xs in if x == n then rest else i ∷ rest

-- The index of a member, which `row_of[order] = np.arange(num_rows)` writes.
unfoldable pub index_of : ℕ → List ℕ → ℕ
index_of a [] = 0
index_of a (x ∷ xs) = let rest = index_of a xs in if x == a then 0 else suc rest

unfoldable pub maximum : List ℕ → ℕ
maximum [] = 0
maximum (x ∷ xs) = max x (maximum xs)
