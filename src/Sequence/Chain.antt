-- ===== src/Sequence/Chain.antt =====
-- The chained block hashes of Sequence._extend_block_hashes, as a function of the tokens alone.
use lean_vllm.Prelude.{
  ℕ, zero, suc, ◌*◌, ◌≤◌, ◌≡◌, refl, Option, none, some, List, [], ◌∷◌, ◌++◌, arith, length,
  get_last?, length-append,
}
use lean_vllm.Sequence.{Settings, slice}
use lean_vllm.Sequence.Slices.{slice-append}

pub get_last?-append : (xs : List ℕ) (x : ℕ) → get_last? (xs ++ x ∷ []) ≡ some x
get_last?-append [] x = refl
get_last?-append (y ∷ []) x = refl
get_last?-append (y ∷ z ∷ zs) x = get_last?-append (z ∷ zs) x

module _ (c : Settings) where
  -- The hash of the first `n` blocks of the tokens; `none` stands for the -1 before the first.
  abbrev pub chain_hash : ℕ → List ℕ → Option ℕ
  chain_hash zero tokens = none
  chain_hash (suc n) tokens =
      some (c.hash_block (slice c.block_size n tokens) (chain_hash n tokens))

  -- The hashes of the first 1, …, n blocks.
  abbrev pub hash_chain : ℕ → List ℕ → List ℕ
  hash_chain zero tokens = []
  hash_chain (suc n) tokens =
      hash_chain n tokens ++ c.hash_block (slice c.block_size n tokens) (chain_hash n tokens) ∷ []

  pub length-hash_chain : (n : ℕ) (tokens : List ℕ) → length (hash_chain n tokens) ≡ n
  length-hash_chain zero tokens = refl
  length-hash_chain (suc n) tokens = omega (
    arith,
    length-append (hash_chain n tokens)
        (c.hash_block (slice c.block_size n tokens) (chain_hash n tokens) ∷ []),
    length-hash_chain n tokens,
  )

  pub get_last?-hash_chain :
      (n : ℕ) (tokens : List ℕ) → get_last? (hash_chain n tokens) ≡ chain_hash n tokens
  get_last?-hash_chain zero tokens = refl
  get_last?-hash_chain (suc n) tokens = get_last?-append (hash_chain n tokens) _

  pub chain_hash-append :
      (n : ℕ) (xs ys : List ℕ)
      → n * c.block_size ≤ length xs
      → chain_hash n (xs ++ ys) ≡ chain_hash n xs
  chain_hash-append zero xs ys h = refl
  chain_hash-append (suc n) xs ys h =
      cc (slice-append c.block_size n xs ys (grind arith), chain_hash-append n xs ys (grind arith))

  pub hash_chain-append :
      (n : ℕ) (xs ys : List ℕ)
      → n * c.block_size ≤ length xs
      → hash_chain n (xs ++ ys) ≡ hash_chain n xs
  hash_chain-append zero xs ys h = refl
  hash_chain-append (suc n) xs ys h = cc (
    slice-append c.block_size n xs ys (grind arith),
    chain_hash-append n xs ys (grind arith),
    hash_chain-append n xs ys (grind arith),
  )
