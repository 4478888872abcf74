-- ===== src/BlockManager/Fresh.antt =====
-- _allocate_block and the loops that take fresh blocks: they fail only on an empty queue, and give
-- out blocks that nobody holds.
use mathlib.Core.List.{append-nil, append_assoc}
use lean_vllm.Prelude.{
  ℕ, zero, suc, ◌+◌, ◌≤◌, ◌<◌, ◌≡◌, ◌≢◌, refl, ap, ◌∙◌, Option, none, some, List, [], ◌∷◌, ◌++◌,
  arith, length, get_elem?, set, get_elem?-set, length-set, get_elem?_total,
}
use lean_vllm.Prelude.Counting.{count}
use lean_vllm.Prelude.Dict
use lean_vllm.BlockManager.{Block, BlockManager, reset, forget, allocate_block, take_new}
use lean_vllm.BlockManager.Queue.{popleft}
use lean_vllm.BlockManager.Valid.{IsValid, IsValid-ext, hold}

-- After its deletion from the map of its hash, a block is named by no entry.
get-forget :
    (block_id : ℕ) (own : Option ℕ) (d : List (ℕ × ℕ)) (hash i : ℕ)
    → Dict.get hash (forget block_id own d) ≡ some i
    → (Dict.get hash d ≡ some i) × (own ≡ some hash → i ≢ block_id)
unfolding forget
get-forget block_id none d hash i h = (h, λ e. cc)
get-forget block_id (some own) d hash i h = ground (arith, Dict.get-without own hash d)

module _ (m : BlockManager) (held : ℕ → ℕ) (v : IsValid m held) where
  -- The first block of the queue is there and has no holder.
  first_free :
      (block_id : ℕ) (rest : List ℕ)
      → m.free ≡ block_id ∷ rest
      → (b : Block) × (get_elem? m.blocks block_id ≡ some b)
        × (b.ref_count ≡ 0)
        × (held block_id ≡ 0)
        × (block_id < length m.blocks)
  first_free block_id rest e =
      let inside : (block_id < length m.blocks) × (held block_id ≡ 0) =
        ground (arith, v.free block_id) in
      let (b, at) = get_elem?_total m.blocks block_id inside.0 in
      (b, at, (v.at block_id b at).1 ∙ inside.1, inside.1, inside.0)

  -- The first block of a nonempty queue is given out; it was held by nobody, and the manager
  -- stays valid with one more use of it.
  pub allocate_block_lem :
      (block_id : ℕ) (rest : List ℕ)
      → m.free ≡ block_id ∷ rest
      → (m' : BlockManager) × (allocate_block m ≡ some (block_id, m'))
        × IsValid m' (hold (block_id ∷ []) held)
        × (m'.free ≡ rest)
        × (held block_id ≡ 0)
        × (length m'.blocks ≡ length m.blocks)
        × (m'.settings ≡ m.settings)
        × ((i : ℕ) → i ≢ block_id → get_elem? m'.blocks i ≡ get_elem? m.blocks i)
  unfolding allocate_block popleft reset
  allocate_block_lem block_id rest e =
      let (b, at, unref, unheld, inside) = first_free block_id rest e in
      let m' : BlockManager = record m {
        free = rest;
        blocks = set m.blocks block_id (reset b);
        hash_to_block_id = forget block_id b.hash m.hash_to_block_id;
        used = Dict.add block_id m.used;
      } in
      (
        m',
        simp (e, at, unref),
        record {
          at = λ i c h.
              ground
                (arith, get_elem?-set m.blocks block_id i (reset b), v.at i c, v.at block_id b at);
          in_range = λ i h. ground (arith, length-set m.blocks block_id (reset b), v.in_range i);
          used = λ i. ground (arith, Dict.contains-add block_id i m.used, v.used i);
          free = λ i. ground (arith, length-set m.blocks block_id (reset b), v.free i);
          cached = λ hash i h.
              let (old, apart) = get-forget block_id b.hash m.hash_to_block_id hash i h in
              let (c, at', own) = v.cached hash i old in
              let ne : i ≢ block_id = λ q. apart (cc) q in
              (c, ground (arith, get_elem?-set m.blocks block_id i (reset b)), own);
        },
        refl,
        unheld,
        length-set m.blocks block_id (reset b),
        refl,
        λ i ne. ground (arith, get_elem?-set m.blocks block_id i (reset b)),
      )

-- What the loop that takes fresh blocks leaves behind.
pub record Taken (m : BlockManager) (held : ℕ → ℕ) (table : List ℕ) (left : ℕ)
    (result : Option (BlockManager × List ℕ)) : Type 0 where
  pub manager : BlockManager
  pub fresh : List ℕ
  pub returns : result ≡ some (manager, table ++ fresh)
  pub valid : IsValid manager (hold fresh held)
  pub as_many : length fresh ≡ left
  pub used_up : length manager.free + left ≡ length m.free
  -- a fresh block is taken once, and was in no table
  pub exclusive : (i : ℕ) → 0 < count i fresh → (held i ≡ 0) × (count i fresh ≡ 1)
  -- the blocks that were held are as they were
  pub kept : (i : ℕ) → 0 < held i → get_elem? manager.blocks i ≡ get_elem? m.blocks i
  pub same_size : length manager.blocks ≡ length m.blocks
  pub same_settings : manager.settings ≡ m.settings

-- With enough free blocks the loop takes as many as it is asked for, each from nobody.
pub take_new-Taken :
    (left : ℕ) (m : BlockManager) (held : ℕ → ℕ) (table free : List ℕ)
    → m.free ≡ free
    → IsValid m held
    → left ≤ length free
    → Taken m held table left (take_new left (m, table))
unfolding take_new
take_new-Taken zero m held table free e v h = record {
  manager = m;
  fresh = [];
  returns = simp append-nil;
  valid = IsValid-ext held _ (λ i. omega arith) v;
  as_many = refl;
  used_up = omega arith;
  exclusive = λ i p. absurd (omega arith);
  kept = λ i p. refl;
  same_size = refl;
  same_settings = refl;
}
take_new-Taken (suc left) m held table [] e v h = absurd (omega arith)
take_new-Taken (suc left) m held table (block_id ∷ rest) e v h =
    let (m', step, v', e', unheld, size, settings, others) =
      allocate_block_lem m held v block_id rest e in
    let t : Taken m' (hold (block_id ∷ []) held) (table ++ block_id ∷ []) left _ =
      take_new-Taken left m' (hold (block_id ∷ []) held) (table ++ block_id ∷ []) rest e' v'
        (omega arith) in
    record {
      manager = t.manager;
      fresh = block_id ∷ t.fresh;
      returns = rw step (rw append_assoc at (t.returns));
      valid = IsValid-ext _ _ (λ i. omega arith) t.valid;
      as_many = omega (arith, t.as_many);
      used_up = omega (arith, t.used_up, ap length e, ap length e');
      exclusive = λ i p. ground (arith, t.exclusive i, t.exclusive block_id);
      kept = λ i p. t.kept i (omega arith) ∙ others i (λ q. ground (arith, ap held q));
      same_size = t.same_size ∙ size;
      same_settings = t.same_settings ∙ settings;
    }
