-- ===== src/Tests/Blocks.antt =====
-- A cache of three blocks.
use lean_vllm.Prelude.{
  ℕ, ◌+◌, ◌*◌, ◌≤◌, ◌<◌, ◌≡◌, refl, false, some, none, List, [], ◌∷◌, ◌++◌, ◌⊎◌, arith, length, max,
  get_elem?, zero, suc, ◌==◌, Bool-cases, inl, inr, sym, ap, ◌∙◌, list_eq,
}
use lean_vllm.Prelude.Counting.{count}
use lean_vllm.Sequence.{Sequence, num_blocks, block}
use lean_vllm.Sequence.Commit.{IsHashed}
use lean_vllm.BlockManager.{
  Block, BlockManager, can_allocate, allocate, deallocate, can_append, may_append, needed_blocks,
  num_missing_blocks, hash_blocks, count_hits, find_cached, hit, give_back_last, take_cached, share,
  hold_cached, take_new, allocate_block, reset, forget,
}
use lean_vllm.BlockManager.Queue.{popleft}
use lean_vllm.Prelude.Dict
use lean_vllm.BlockManager.Valid.{IsValid, hold}
use lean_vllm.BlockManager.Admission.{Admitted, can_allocate_lem}
use lean_vllm.BlockManager.Release.{Released, deallocate-Released}
use lean_vllm.BlockManager.Growth.{may_append_lem, deallocate-allocate}
use lean_vllm.BlockManager.Publish.{IsPublished, IsUnpublished, IsDistinct, hash_blocks_lem}
use lean_vllm.Tests.Requests.{pairs, five, five-IsHashed}

abbrev pub none_held : ℕ → ℕ
none_held i = 0

-- Blocks of a prefix of one request.
abbrev first_block : Block
first_block = record { block_id = 0; ref_count = 1; hash = some 112; token_ids = 1 ∷ 2 ∷ [] }

abbrev second_block : Block
second_block = record { block_id = 1; ref_count = 1; hash = some 11234; token_ids = 3 ∷ 4 ∷ [] }

abbrev blank_block : ℕ → ℕ → Block
blank_block block_id ref_count = record {
  block_id = block_id;
  ref_count = ref_count;
  hash = none;
  token_ids = [];
}

-- The request holds blocks 0, 1 and 2, and none is published.
abbrev pub allocated : BlockManager
allocated = record {
  settings = pairs;
  recompute_last_hit = false;
  hash_to_block_id = [];
  blocks = blank_block 0 1 ∷ blank_block 1 1 ∷ blank_block 2 1 ∷ blank_block 3 0 ∷ [];
  free = 3 ∷ [];
  used = 0 ∷ 1 ∷ 2 ∷ [];
}

abbrev pub admitted : Sequence
admitted = record five { block_table = 0 ∷ 1 ∷ 2 ∷ [] }

-- The first two are published.
abbrev pub filled : BlockManager
filled = record allocated {
  blocks = first_block ∷ second_block ∷ blank_block 2 1 ∷ blank_block 3 0 ∷ [];
  hash_to_block_id = (112, 0) ∷ (11234, 1) ∷ [];
}

abbrev pub running : Sequence
running = record admitted { num_published_blocks = 2 }

allocated-at :
    (i : ℕ) (b : Block)
    → get_elem? allocated.blocks i ≡ some b
    → (b.block_id ≡ i) × (b.ref_count ≡ hold running.block_table none_held i)
allocated-at zero b h = ground arith
allocated-at (suc zero) b h = ground arith
allocated-at (suc (suc zero)) b h = ground arith
allocated-at (suc (suc (suc zero))) b h = ground arith
allocated-at (suc (suc (suc (suc i)))) b h = absurd cc

pub allocated-IsValid : IsValid allocated (hold running.block_table none_held)
unfolding Dict.get
allocated-IsValid = record {
  at = allocated-at;
  in_range = λ i h. ground arith;
  used = λ i. ground arith;
  free = λ i. ground arith;
  cached = λ hash i h. absurd cc;
}

filled-at :
    (i : ℕ) (b : Block)
    → get_elem? filled.blocks i ≡ some b
    → (b.block_id ≡ i) × (b.ref_count ≡ hold running.block_table none_held i)
filled-at zero b h = ground arith
filled-at (suc zero) b h = ground arith
filled-at (suc (suc zero)) b h = ground arith
filled-at (suc (suc (suc zero))) b h = ground arith
filled-at (suc (suc (suc (suc i)))) b h = absurd cc

filled-cached :
    (hash i : ℕ)
    → Dict.get hash filled.hash_to_block_id ≡ some i
    → (b : Block) × (get_elem? filled.blocks i ≡ some b) × (b.hash ≡ some hash)
unfolding Dict.get
filled-cached hash i h = elim (Bool-cases (112 == hash)) [
  | inl first ↦
      let zeroth : i ≡ 0 = ground arith in
      (first_block, ap (get_elem? filled.blocks) zeroth, ground arith)
  | inr first_missed ↦ elim (Bool-cases (11234 == hash)) [
    | inl second ↦
        let next : i ≡ 1 = ground arith in
        (second_block, ap (get_elem? filled.blocks) next, ground arith)
    | inr second_missed ↦
        let miss : none ≡ some i = sym (simp (first_missed, second_missed)) ∙ h in absurd (cc miss)
  ]
]

pub filled-IsValid : IsValid filled (hold running.block_table none_held)
filled-IsValid = record {
  at = filled-at;
  in_range = λ i h. ground arith;
  used = λ i. ground arith;
  free = λ i. ground arith;
  cached = filled-cached;
}

-- A second request for the same prompt finds two blocks.
can_allocate_example :
    ((can_allocate filled five 0 ≡ some none) × (length filled.free < needed_blocks filled five 0))
    ⊎ ((n : ℕ) × (can_allocate filled five 0 ≡ some (some n))
        × (n * 2 < 5)
        × Admitted filled (hold running.block_table none_held) five 0 n)
can_allocate_example =
    can_allocate_lem filled (hold running.block_table none_held) five 0 filled-IsValid refl
      (omega arith) five-IsHashed refl

deallocate-Released_example :
    (m' : BlockManager) × (deallocate filled running
      ≡ some (
        m',
        record running { num_cached_tokens = 0; num_published_blocks = 0; block_table = [] },
      ))
    × Released filled m' none_held
deallocate-Released_example = deallocate-Released filled none_held running filled-IsValid

-- Two lookahead slots do not fit in the third block.
may_append_example :
    (m' : BlockManager) × (fresh : List ℕ) × (may_append filled running 2
      ≡ some (m', record running { block_table = (0 ∷ 1 ∷ 2 ∷ []) ++ fresh }))
    × IsValid m' (hold ((0 ∷ 1 ∷ 2 ∷ []) ++ fresh) none_held)
    × (length ((0 ∷ 1 ∷ 2 ∷ []) ++ fresh) ≡ max 3 (needed_blocks filled running 2))
    × ((i : ℕ) → 0 < count i fresh → hold (0 ∷ 1 ∷ 2 ∷ []) none_held i ≡ 0)
    × (length m'.free + length fresh ≡ 1)
unfolding can_append num_missing_blocks needed_blocks
may_append_example = may_append_lem filled none_held running 2 filled-IsValid refl

-- The second request, which shares blocks 0 and 1.
abbrev shared : BlockManager
shared = record filled {
  blocks =
      record first_block { ref_count = 2 }
      ∷ record second_block { ref_count = 2 }
      ∷ blank_block 2 1
      ∷ blank_block 3 1
      ∷ [];
  free = [];
  used = 3 ∷ 0 ∷ 1 ∷ 2 ∷ [];
}

abbrev second_running : Sequence
second_running = record five {
  block_table = 0 ∷ 1 ∷ 3 ∷ [];
  num_cached_tokens = 4;
  num_published_blocks = 2;
}

granted : can_allocate filled five 0 ≡ some (some 2)
unfolding can_allocate count_hits find_cached hit give_back_last needed_blocks Dict.get block
    num_blocks list_eq
granted = refl

second_admitted : allocate filled five 2 0 ≡ some (shared, second_running)
unfolding allocate take_cached share hold_cached take_new allocate_block needed_blocks Dict.get
    Dict.add popleft reset forget
second_admitted = refl

deallocate-allocate_example :
    (m2 : BlockManager) × (deallocate shared second_running
      ≡ some (
        m2,
        record second_running { num_cached_tokens = 0; num_published_blocks = 0; block_table = [] },
      ))
    × IsValid m2 (hold (0 ∷ 1 ∷ 2 ∷ []) none_held)
    × (length m2.free ≡ 1)
deallocate-allocate_example =
    deallocate-allocate filled shared (hold running.block_table none_held) five second_running 0 2
      filled-IsValid refl (omega arith) five-IsHashed refl granted second_admitted

pub admitted-IsDistinct : IsDistinct (0 ∷ 1 ∷ 2 ∷ [])
admitted-IsDistinct zero zero x e f = refl
admitted-IsDistinct zero (suc (suc zero)) x e f = absurd (ground arith)
admitted-IsDistinct zero (suc zero) x e f = absurd (ground arith)
admitted-IsDistinct (suc zero) zero x e f = absurd (ground arith)
admitted-IsDistinct (suc zero) (suc zero) x e f = refl
admitted-IsDistinct (suc zero) (suc (suc zero)) x e f = absurd (ground arith)
admitted-IsDistinct (suc (suc zero)) zero x e f = absurd (ground arith)
admitted-IsDistinct (suc (suc zero)) (suc zero) x e f = absurd (ground arith)
admitted-IsDistinct (suc (suc zero)) (suc (suc zero)) x e f = refl
admitted-IsDistinct zero (suc (suc (suc k))) x e f = absurd (cc f)
admitted-IsDistinct (suc zero) (suc (suc (suc k))) x e f = absurd (cc f)
admitted-IsDistinct (suc (suc zero)) (suc (suc (suc k))) x e f = absurd (cc f)
admitted-IsDistinct (suc (suc (suc j))) k x e f = absurd (cc e)

pub admitted-IsUnpublished :
    (j : ℕ) → admitted.num_published_blocks ≤ j → j < 2 → IsUnpublished allocated admitted j
admitted-IsUnpublished zero h l = (0, refl, blank_block 0 1, refl, refl)
admitted-IsUnpublished (suc zero) h l = (1, refl, blank_block 1 1, refl, refl)
admitted-IsUnpublished (suc (suc j)) h l = absurd (omega arith)

admitted-IsHashed : IsHashed pairs admitted
admitted-IsHashed = record { counted = refl; prompt = omega arith; last = refl; hashes = refl }

-- Five tokens are computed: two full blocks.
hash_blocks_example :
    (m' : BlockManager) × (hash_blocks allocated admitted 5
      ≡ some (m', record admitted { num_published_blocks = 2 }))
    × IsValid m' (hold (0 ∷ 1 ∷ 2 ∷ []) none_held)
    × ((j : ℕ) → 0 ≤ j → j < 2 → IsPublished m' admitted j)
hash_blocks_example =
    hash_blocks_lem allocated (hold admitted.block_table none_held) admitted 5 2 refl refl
      (omega arith) admitted-IsHashed allocated-IsValid admitted-IsDistinct admitted-IsUnpublished
