-- ===== src/BlockManager/Sharing.antt =====
-- The first loop of allocate: it holds a whole cached prefix.
use mathlib.Core.List.{append_assoc, append-nil, reverse, reverse-cons}
use lean_vllm.Prelude.{
  ℕ, zero, suc, ◌+◌, ◌≤◌, ◌<◌, ◌≡◌, refl, ap, ◌∙◌, not, some, List, [], ◌∷◌, ◌++◌, arith, ltb, to_ℕ,
  length, get_elem?, get_elem?-length, ◌>>=◌, bind-some, Option-cases, inl, inr,
}
use lean_vllm.Prelude.Dict
use lean_vllm.Sequence.{Sequence, slice}
use lean_vllm.BlockManager.{Block, BlockManager, hold_cached, share, take_cached}
use lean_vllm.BlockManager.Valid.{IsValid, IsValid-ext, hold}
use lean_vllm.BlockManager.Cached.{Held, hold_cached_lem}

-- The cache has the first blocks of the sequence, listed last first, with the sequence's tokens.
abbrev pub HasPrefix : BlockManager → Sequence → List ℕ → Type 0
HasPrefix m s [] = Unit
HasPrefix m s (block_id ∷ before) =
    (hash : ℕ) × (get_elem? s.block_hashes (length before) ≡ some hash)
    × (Dict.get hash m.hash_to_block_id ≡ some block_id)
    × (b : Block) × (get_elem? m.blocks block_id ≡ some b)
    × (b.token_ids ≡ slice m.settings.block_size (length before) s.token_ids)
    × HasPrefix m s before

-- How many of the blocks are still in the queue.
abbrev pub num_unheld : (ℕ → ℕ) → List ℕ → ℕ
num_unheld held [] = 0
num_unheld held (x ∷ xs) = to_ℕ (not (ltb 0 (held x))) + num_unheld held xs

take_cached-suc :
    (hashes : List ℕ) (n i j : ℕ) (st : BlockManager × List ℕ)
    → i + n ≡ j
    → take_cached hashes (suc n) i st ≡ (take_cached hashes n i st >>= share hashes j)
unfolding take_cached
take_cached-suc hashes zero i j st e =
    let e' : i ≡ j = omega arith in rw (bind-some (share hashes i st), e')
take_cached-suc hashes (suc n) i j st e = elim (Option-cases (share hashes i st)) [
  | inl stop ↦ rw stop
  | inr (st', go) ↦ rw go (take_cached-suc hashes n (i + 1) j st' (omega arith))
]

share_lem :
    (hashes : List ℕ) (i hash block_id : ℕ) (m m' : BlockManager) (table : List ℕ)
    → get_elem? hashes i ≡ some hash
    → Dict.get hash m.hash_to_block_id ≡ some block_id
    → hold_cached block_id m ≡ some m'
    → share hashes i (m, table) ≡ some (m', table ++ block_id ∷ [])
unfolding share
share_lem hashes i hash block_id m m' table own entry step = simp (own, entry, step)

pub record Shared (m : BlockManager) (s : Sequence) (held : ℕ → ℕ) (table prefix : List ℕ)
    : Type 0 where
  pub manager : BlockManager
  pub returns :
      take_cached s.block_hashes (length prefix) 0 (m, table)
      ≡ some (manager, table ++ reverse prefix)
  pub change : Held m manager held prefix
  -- the queue shrinks by no more than the blocks that nobody held
  pub enough : length m.free ≤ length manager.free + num_unheld held prefix

Held-refl : (m : BlockManager) (held : ℕ → ℕ) → IsValid m held → Held m m held []
Held-refl m held v = record {
  valid = IsValid-ext held _ (λ i. omega arith) v;
  same_size = refl;
  same_settings = refl;
  same_cache = refl;
  same_contents = λ i b h. (b, h, refl, refl);
}

Held-cons :
    (m m' m'' : BlockManager) (held : ℕ → ℕ) (block_id : ℕ) (ids : List ℕ)
    → Held m m' held ids
    → Held m' m'' (hold ids held) (block_id ∷ [])
    → Held m m'' held (block_id ∷ ids)
Held-cons m m' m'' held block_id ids a b = record {
  valid = IsValid-ext _ _ (λ i. omega arith) b.valid;
  same_size = b.same_size ∙ a.same_size;
  same_settings = b.same_settings ∙ a.same_settings;
  same_cache = b.same_cache ∙ a.same_cache;
  same_contents = λ i c h.
      let (c', h', t, k) = a.same_contents i c h in
      let (c'', h'', t', k') = b.same_contents i c' h' in (c'', h'', t' ∙ t, k' ∙ k);
}

-- The loop over a cached prefix never fails, and the table grows by it.
pub take_cached-Shared :
    (m : BlockManager) (s : Sequence) (held : ℕ → ℕ) (table prefix : List ℕ)
    → IsValid m held
    → HasPrefix m s prefix
    → Shared m s held table prefix
take_cached-Shared m s held table [] v p = record {
  manager = m;
  returns = unfold take_cached in simp append-nil;
  change = Held-refl m held v;
  enough = omega arith;
}
take_cached-Shared m s held table (block_id ∷ before) v (hash, own, entry, b, at, _, p) =
    let r : Shared m s held table before = take_cached-Shared m s held table before v p in
    let inside : block_id < length r.manager.blocks =
      omega (arith, get_elem?-length m.blocks block_id at, r.change.same_size) in
    let (m', step, change, free) =
      hold_cached_lem r.manager (hold before held) r.change.valid block_id inside in
    record {
      manager = m';
      returns =
          rw
            (
              take_cached-suc s.block_hashes (length before) 0 (length before) (m, table)
                  (omega arith),
              r.returns,
            )
            (share_lem s.block_hashes (length before) hash block_id r.manager m'
                (table ++ reverse before) own (ap (Dict.get hash) r.change.same_cache ∙ entry) step
              ∙ rw (reverse-cons, append_assoc));
      change = Held-cons m r.manager m' held block_id before r.change change;
      enough = ground (arith, r.enough);
    }
