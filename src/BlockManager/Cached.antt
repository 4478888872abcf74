-- ===== src/BlockManager/Cached.antt =====
-- The blocks that allocate shares: cached blocks, held by other requests or still in the queue.
use lean_vllm.Prelude.{
  ℕ, ◌+◌, ◌<◌, ◌≡◌, ◌≢◌, refl, ◌∙◌, true, not, ◌&&◌, some, List, [], ◌∷◌, arith, ltb, ◌==◌,
  if◌then◌else◌, to_ℕ, length, get_elem?, set, get_elem?-set, get_elem?-length, length-set,
  get_elem?_total, Bool-cases, inl, inr,
}
use lean_vllm.Prelude.Counting.{count, contains, erase, count-erase, contains-count, length-erase}
use lean_vllm.Prelude.Dict
use lean_vllm.BlockManager.{Block, BlockManager, hold_cached}
use lean_vllm.BlockManager.Queue.{remove}
use lean_vllm.BlockManager.Valid.{IsValid, hold}

-- What another holder changes in a manager.
pub record Held (m m' : BlockManager) (held : ℕ → ℕ) (ids : List ℕ) : Type 0 where
  pub valid : IsValid m' (hold ids held)
  pub same_size : length m'.blocks ≡ length m.blocks
  pub same_settings : m'.settings ≡ m.settings
  pub same_cache : m'.hash_to_block_id ≡ m.hash_to_block_id
  -- only the counts of the blocks change
  pub same_contents :
      (i : ℕ) (b : Block)
      → get_elem? m.blocks i ≡ some b
      → (b' : Block) × (get_elem? m'.blocks i ≡ some b')
        × (b'.token_ids ≡ b.token_ids)
        × (b'.hash ≡ b.hash)

module _ (m : BlockManager) (held : ℕ → ℕ) (v : IsValid m held) where
  module _ (block_id n : ℕ) (b : Block) (at : get_elem? m.blocks block_id ≡ some b) where
    abbrev recounted : List Block
    recounted = set m.blocks block_id (record b { ref_count = n })

    abbrev recounted_block : ℕ → Block → Block
    recounted_block i c = if block_id == i then record b { ref_count = n } else c

    recounted_contents :
        (i : ℕ) (c : Block)
        → get_elem? m.blocks i ≡ some c
        → (c' : Block) × (get_elem? recounted i ≡ some c')
          × (c'.token_ids ≡ c.token_ids)
          × (c'.hash ≡ c.hash)
    recounted_contents i c h = (
      recounted_block i c,
      ground (
        arith,
        get_elem?-set m.blocks block_id i (record b { ref_count = n }),
        get_elem?-length m.blocks i h,
      ),
      ground arith,
      ground arith,
    )

    -- The manager with a new count of one block is valid for the tables that match the count.
    pub recount-IsValid :
        (held' : ℕ → ℕ) (used free : List ℕ)
        → n ≡ held' block_id
        → ((i : ℕ) → i ≢ block_id → held' i ≡ held i)
        → ((i : ℕ) → contains i used ≡ ltb 0 (held' i))
        → ((i : ℕ) → count i free ≡ to_ℕ (ltb i (length m.blocks) && not (ltb 0 (held' i))))
        → IsValid (record m { blocks = recounted; used = used; free = free }) held'
    recount-IsValid held' used free e same u f = record {
      at = λ i c h. ground (
        arith,
        get_elem?-set m.blocks block_id i (record b { ref_count = n }),
        get_elem?-length m.blocks block_id at,
        v.at i c,
        v.at block_id b at,
        same i,
      );
      in_range = λ i h. ground (
        arith,
        length-set m.blocks block_id (record b { ref_count = n }),
        get_elem?-length m.blocks block_id at,
        same i,
        v.in_range i,
      );
      used = u;
      free = λ i. rw length-set (f i);
      cached = λ hash i h.
          let (c, at', own) = v.cached hash i h in
          let (c', there, _, kept) = recounted_contents i c at' in (c', there, kept ∙ own);
    }

  -- Holding a cached block never fails, and takes it out of the queue if nobody held it.
  pub hold_cached_lem :
      (block_id : ℕ)
      → block_id < length m.blocks
      → (m' : BlockManager) × (hold_cached block_id m ≡ some m')
        × Held m m' held (block_id ∷ [])
        × (length m'.free + to_ℕ (not (ltb 0 (held block_id))) ≡ length m.free)
  unfolding hold_cached remove
  hold_cached_lem block_id h =
      let (b, at) = get_elem?_total m.blocks block_id h in
      let refs : b.ref_count ≡ held block_id = (v.at block_id b at).1 in
      elim (Bool-cases (contains block_id m.used)) [
        | inl old ↦ (
          record m { blocks = recounted block_id (b.ref_count + 1) b at },
          simp (at, old),
          record {
            valid =
                recount-IsValid block_id (b.ref_count + 1) b at (hold (block_id ∷ []) held) m.used
                  m.free (ground arith) (λ i ne. ground arith)
                  (λ i. ground (arith, v.used i, v.used block_id))
                  (λ i. ground (arith, v.free i, v.used block_id));
            same_size = length-set m.blocks block_id _;
            same_settings = refl;
            same_cache = refl;
            same_contents = recounted_contents block_id (b.ref_count + 1) b at;
          },
          ground (arith, v.used block_id),
        )
        | inr new ↦
            let unheld : held block_id ≡ 0 = ground (arith, v.used block_id) in
            let queued : count block_id m.free ≡ 1 = ground (arith, v.free block_id) in
            let found : contains block_id m.free ≡ true =
              contains-count block_id m.free ∙ rw queued in
            (
              record m {
                blocks = recounted block_id 1 b at;
                free = erase block_id m.free;
                used = Dict.add block_id m.used;
              },
              simp (at, new, found),
              record {
                valid =
                    recount-IsValid block_id 1 b at (hold (block_id ∷ []) held)
                      (Dict.add block_id m.used) (erase block_id m.free) (ground arith)
                      (λ i ne. ground arith)
                      (λ i. ground (arith, Dict.contains-add block_id i m.used, v.used i))
                      (λ i. ground (arith, count-erase block_id i m.free, v.free i));
                same_size = length-set m.blocks block_id _;
                same_settings = refl;
                same_cache = refl;
                same_contents = recounted_contents block_id 1 b at;
              },
              ground (arith, length-erase block_id m.free),
            )
      ]
