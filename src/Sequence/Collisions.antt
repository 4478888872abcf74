-- ===== src/Sequence/Collisions.antt =====
-- What equal block hashes of two requests (Sequence of lean_vllm/engine/sequence.py) say of their
-- tokens.
use lean_vllm.Prelude.{ℕ, ◌≡◌, Option, List}
use lean_vllm.Sequence.{Settings, Sequence, slice}
use lean_vllm.Sequence.Chain.{chain_hash}

-- A block of one request and a block of the other, with the hashes before them, that differ and
-- have one hash.
pub data Collision (c : Settings) (xs ys : List ℕ) : Type 0 where
  collision :
      (m n : ℕ)
      → ¬ (
          (slice c.block_size m xs ≡ slice c.block_size n ys)
          × (chain_hash c m xs ≡ chain_hash c n ys))
      → c.hash_block (slice c.block_size m xs) (chain_hash c m xs)
        ≡ c.hash_block (slice c.block_size n ys) (chain_hash c n ys)
      → Collision c xs ys
