-- ===== src/BlockManager/Lookup.antt =====
-- can_allocate: the cached prefix that it finds, and the free blocks that it counts.
use lean_vllm.Prelude.{
  ℕ, zero, suc, ◌+◌, ◌≤◌, ◌<◌, ◌≡◌, refl, sym, ap, ◌∙◌, ◌⊎◌, Bool, false, Option, none, some, List,
  [], ◌∷◌, arith, ltb, length, get_elem?, get_elem?_total, Option-cases, Bool-cases, inl, inr,
  list_eq, list_eq→eq, lt→ltb,
}
use lean_vllm.Prelude.Counting.{contains}
use lean_vllm.Prelude.Dict
use lean_vllm.Sequence.{Sequence, slice, block, num_blocks}
use lean_vllm.BlockManager.{Block, BlockManager, Hits, hit, find_cached, count_hits}
use lean_vllm.BlockManager.Valid.{IsValid}
use lean_vllm.BlockManager.Sharing.{HasPrefix, num_unheld}

-- Whether the last block found, which stands first, is held.
abbrev pub last_held : (ℕ → ℕ) → List ℕ → Bool
last_held held [] = false
last_held held (x ∷ xs) = ltb 0 (held x)

-- The counters agree with the blocks found so far.
pub record Counted (held : ℕ → ℕ) (needed : ℕ) (prefix : List ℕ) (h : Hits) : Type 0 where
  pub cached : h.num_cached_blocks ≡ length prefix
  pub new : h.num_new_blocks + length prefix ≡ needed + num_unheld held prefix
  pub last : h.last_hit_held ≡ last_held held prefix

pub num_unheld-le : (held : ℕ → ℕ) (xs : List ℕ) → num_unheld held xs ≤ length xs
num_unheld-le held [] = omega arith
num_unheld-le held (x ∷ xs) = ground (arith, num_unheld-le held xs)

module _ (m : BlockManager) (held : ℕ → ℕ) (v : IsValid m held) (s : Sequence) where
  abbrev Found : ℕ → ℕ → Option (Option ℕ) → Type 0
  Found i hash r =
      (r ≡ some none)
      ⊎ ((block_id : ℕ) × (r ≡ some (some block_id))
          × (Dict.get hash m.hash_to_block_id ≡ some block_id)
          × (b : Block) × (get_elem? m.blocks block_id ≡ some b)
          × (b.token_ids ≡ slice m.settings.block_size i s.token_ids))

  Found-entry :
      (i hash block_id : ℕ) (b : Block)
      → i < num_blocks m.settings s
      → Dict.get hash m.hash_to_block_id ≡ some block_id
      → get_elem? m.blocks block_id ≡ some b
      → Found i hash (find_cached m s i hash)
  unfolding find_cached block
  Found-entry i hash block_id b h entry at =
      elim (Bool-cases (list_eq b.token_ids (slice m.settings.block_size i s.token_ids))) [
        | inl same ↦ inr (block_id, ground (arith, lt→ltb _ _ h), entry, b, at, list_eq→eq _ _ same)
        | inr other ↦ inl (ground (arith, lt→ltb _ _ h))
      ]

  find_cached-Found :
      (i hash : ℕ) → i < num_blocks m.settings s → Found i hash (find_cached m s i hash)
  find_cached-Found i hash h = elim (Option-cases (Dict.get hash m.hash_to_block_id)) [
    | inl absent ↦ inl (unfold find_cached in ground arith)
    | inr (block_id, entry) ↦
        let (b, at, _) = v.cached hash block_id entry in Found-entry i hash block_id b h entry at
  ]

  hit-Counted :
      (needed : ℕ) (prefix : List ℕ) (h : Hits) (block_id : ℕ)
      → length prefix < needed
      → Counted held needed prefix h
      → Counted held needed (block_id ∷ prefix) (hit h (contains block_id m.used))
  unfolding hit
  hit-Counted needed prefix h block_id room c =
      ground (arith, v.used block_id, num_unheld-le held prefix)

  -- The loop of can_allocate returns, with counters that agree with a prefix that the cache has.
  pub count_hits_lem :
      (needed left i : ℕ) (prefix : List ℕ) (h : Hits)
      → length prefix ≡ i
      → i + left ≤ length s.block_hashes
      → i + left ≤ num_blocks m.settings s
      → i + left ≤ needed
      → Counted held needed prefix h
      → HasPrefix m s prefix
      → (h' : Hits) × (found : List ℕ) × (count_hits m s left i h ≡ some h')
        × Counted held needed found h'
        × HasPrefix m s found
        × (length found ≤ i + left)
  unfolding count_hits
  count_hits_lem needed zero i prefix h e l b n c p = (h, prefix, refl, c, p, omega arith)
  count_hits_lem needed (suc left) i prefix h e l b n c p =
      let (hash, own) = get_elem?_total s.block_hashes i (omega arith) in
      elim (find_cached-Found i hash (omega arith)) [
        | inl miss ↦ (h, prefix, simp (own, miss), c, p, omega arith)
        | inr (block_id, found, entry, b', at, same) ↦
            let (h', prefix', r, c', p', short) =
              count_hits_lem needed left (i + 1) (block_id ∷ prefix)
                (hit h (contains block_id m.used)) (omega arith) (omega arith) (omega arith)
                (omega arith) (hit-Counted needed prefix h block_id (omega arith) c)
                (
                  hash,
                  ap (get_elem? s.block_hashes) e ∙ own,
                  entry,
                  b',
                  at,
                  same ∙ ap (λ k. slice m.settings.block_size k s.token_ids) (sym e),
                  p,
                ) in
            (h', prefix', simp (own, found, r), c', p', omega arith)
      ]
