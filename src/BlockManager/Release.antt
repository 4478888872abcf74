-- ===== src/BlockManager/Release.antt =====
-- deallocate: a request gives all its blocks back, and the released blocks stay in the cache.
use mathlib.Core.List.{reverse}
use lean_vllm.Prelude.{
  ℕ, ◌+◌, ◌-◌, ◌<◌, ◌≡◌, refl, sym, ◌∙◌, true, false, some, List, [], ◌∷◌, arith, ltb, ◌==◌, to_ℕ,
  length, get_elem?, set, get_elem?-set, get_elem?-length, length-set, get_elem?_total, Bool-cases,
  inl, inr, ltb→lt, not_ltb→le,
}
use lean_vllm.Prelude.Counting.{
  count, contains, count-append, contains-count, count-reverse, same_count-length,
}
use lean_vllm.Prelude.Dict
use lean_vllm.Sequence.{Sequence}
use lean_vllm.BlockManager.{Block, BlockManager, deallocate_block, release, release_all, deallocate}
use lean_vllm.BlockManager.Queue.{append}
use lean_vllm.BlockManager.Valid.{IsValid, IsValid-ext, hold}
use lean_vllm.BlockManager.Cached.{recount-IsValid}

count-append_new :
    (a i : ℕ) (q : List ℕ) → count a q ≡ 0 → count i (append a q) ≡ count i q + to_ℕ (a == i)
unfolding append
count-append_new a i q h =
    let absent : contains a q ≡ false = contains-count a q ∙ rw h in
    simp absent (omega (arith, count-append i q (a ∷ [])))

-- What a release leaves: a valid manager for the other tables, with the same cache entries.
pub record Released (m m' : BlockManager) (held : ℕ → ℕ) : Type 0 where
  pub valid : IsValid m' held
  pub same_size : length m'.blocks ≡ length m.blocks
  pub same_settings : m'.settings ≡ m.settings
  pub same_cache : m'.hash_to_block_id ≡ m.hash_to_block_id

module _ (m : BlockManager) (held : ℕ → ℕ) (block_id : ℕ)
    (v : IsValid m (hold (block_id ∷ []) held)) (b : Block)
    (at : get_elem? m.blocks block_id ≡ some b) where
  refs : b.ref_count ≡ held block_id + 1
  refs = ground (arith, v.at block_id b at)

  abbrev left_over : Block
  left_over = record b { ref_count = b.ref_count - 1 }

  there : get_elem? (set m.blocks block_id left_over) block_id ≡ some left_over
  there = ground (
    arith,
    get_elem?-set m.blocks block_id block_id left_over,
    get_elem?-length m.blocks block_id at,
  )

  release_last :
      held block_id ≡ 0
      → release block_id m
        ≡ some (record m {
          blocks = set m.blocks block_id left_over;
          used = Dict.discard block_id m.used;
          free = append block_id m.free;
        })
  unfolding release deallocate_block
  release_last h =
      let member : contains block_id m.used ≡ true = ground (arith, v.used block_id) in
      ground (arith, refs, there)

  release_shared :
      0 < held block_id
      → release block_id m ≡ some (record m { blocks = set m.blocks block_id left_over })
  unfolding release
  release_shared h = ground (arith, refs)

  -- The block's holder can always let go.
  release_lem : (m' : BlockManager) × (release block_id m ≡ some m') × Released m m' held
  release_lem = elim (Bool-cases (ltb 0 (held block_id))) [
    | inl more ↦ (
      record m { blocks = set m.blocks block_id left_over },
      release_shared (ltb→lt _ _ more),
      record {
        valid =
            recount-IsValid m (hold (block_id ∷ []) held) v block_id (b.ref_count - 1) b at held
              m.used m.free (omega (arith, refs)) (λ i ne. ground arith)
              (λ i. ground (arith, v.used i)) (λ i. ground (arith, v.free i));
        same_size = length-set m.blocks block_id left_over;
        same_settings = refl;
        same_cache = refl;
      },
    )
    | inr last ↦
        let unheld : held block_id ≡ 0 = omega (arith, not_ltb→le _ _ last) in
        let absent : count block_id m.free ≡ 0 = ground (arith, v.free block_id) in
        (
          record m {
            blocks = set m.blocks block_id left_over;
            used = Dict.discard block_id m.used;
            free = append block_id m.free;
          },
          release_last unheld,
          record {
            valid =
                recount-IsValid m (hold (block_id ∷ []) held) v block_id (b.ref_count - 1) b at held
                  (Dict.discard block_id m.used) (append block_id m.free) (omega (arith, refs))
                  (λ i ne. ground arith)
                  (λ i. ground (arith, v.used i, Dict.contains-discard block_id i m.used))
                  (λ i. ground (
                    arith,
                    v.free i,
                    count-append_new block_id i m.free absent,
                    get_elem?-length m.blocks block_id at,
                  ));
            same_size = length-set m.blocks block_id left_over;
            same_settings = refl;
            same_cache = refl;
          },
        )
  ]

release_all-Released :
    (ids : List ℕ) (m : BlockManager) (held : ℕ → ℕ)
    → IsValid m (hold ids held)
    → (m' : BlockManager) × (release_all ids m ≡ some m') × Released m m' held
unfolding release_all
release_all-Released [] m held v = (
  m,
  refl,
  record {
    valid = IsValid-ext _ _ (λ i. omega arith) v;
    same_size = refl;
    same_settings = refl;
    same_cache = refl;
  },
)
release_all-Released (block_id ∷ ids) m held v =
    let v' : IsValid m (hold (block_id ∷ []) (hold ids held)) =
      IsValid-ext _ _ (λ i. omega arith) v in
    let (b, at) = get_elem?_total m.blocks block_id (v.in_range block_id (ground arith)) in
    let (m1, step, r1) = release_lem m (hold ids held) block_id v' b at in
    let (m2, rest, r2) = release_all-Released ids m1 held r1.valid in
    (
      m2,
      rw step rest,
      record {
        valid = r2.valid;
        same_size = r2.same_size ∙ r1.same_size;
        same_settings = r2.same_settings ∙ r1.same_settings;
        same_cache = r2.same_cache ∙ r1.same_cache;
      },
    )

-- In a valid manager that counts its table, a request can always give its blocks back: no assertion
-- of deallocate fails. Its table is then empty, the manager is valid for the other requests'
-- tables, and every cache entry stays.
pub deallocate-Released :
    (m : BlockManager) (held : ℕ → ℕ) (s : Sequence)
    → IsValid m (hold s.block_table held)
    → (m' : BlockManager) × (deallocate m s
        ≡ some (m', record s { num_cached_tokens = 0; num_published_blocks = 0; block_table = [] }))
      × Released m m' held
unfolding deallocate
deallocate-Released m held s v =
    let (m', returns, r) =
      release_all-Released (reverse s.block_table) m held
        (IsValid-ext _ _ (λ i. omega (arith, count-reverse i s.block_table)) v) in
    (m', rw returns, r)

-- The block tables alone decide how many blocks are free.
pub free_determined :
    (m m' : BlockManager) (held : ℕ → ℕ)
    → IsValid m held
    → IsValid m' held
    → length m.blocks ≡ length m'.blocks
    → length m.free ≡ length m'.free
free_determined m m' held v v' e =
    same_count-length m.free m'.free (λ i. v.free i ∙ sym (rw (← e) at (v'.free i)))
