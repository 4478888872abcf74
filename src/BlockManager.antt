-- ===== src/BlockManager.antt =====
-- The paged KV cache of lean_vllm/engine/block_manager.py: a method takes the manager, and a list
-- or counter of the Sequence that it writes, and returns them changed; `none` where it raises.
-- A Block in the free queue is the one of the same id in `blocks`, so the queue holds ids.
pub mod Queue
pub mod Valid
pub mod Fresh
pub mod Cached
pub mod Sharing
pub mod Lookup
pub mod Admission
pub mod Release
pub mod Growth
pub mod Publish
use mathlib.Core.List.{reverse}
use lean_vllm.Prelude.{
  ℕ, zero, suc, ◌+◌, ◌-◌, ◌*◌, ◌/◌, min, max, Bool, true, false, not, Option, none, some, List, [],
  ◌∷◌, ◌++◌, ltb, leb, ◌==◌, if◌then◌else◌, to_ℕ, list_eq, length, get_elem?, set, assert, ◌>>=◌,
  ◌>>◌, ◌&&◌,
}
use lean_vllm.Prelude.Counting.{contains, erase}
use lean_vllm.Prelude.Dict
use lean_vllm.Sequence.{Settings, Sequence, num_planned_tokens, num_blocks, block}
use Queue.{popleft, remove, append}

-- The hash of a block that is in no prefix is `none`, for the source's -1.
pub record Block : Type 0 where
  pub block_id : ℕ
  pub ref_count : ℕ
  pub hash : Option ℕ
  pub token_ids : List ℕ

unfoldable pub new_block : ℕ → Block
new_block block_id = record { block_id = block_id; ref_count = 0; hash = none; token_ids = [] }

unfoldable pub update : Block → ℕ → List ℕ → Block
update b hash token_ids = record b { hash = some hash; token_ids = token_ids }

unfoldable pub reset : Block → Block
reset b = record b { ref_count = 1; hash = none; token_ids = [] }

pub record BlockManager : Type 0 where
  pub settings : Settings
  pub recompute_last_hit : Bool
  pub blocks : List Block
  pub hash_to_block_id : List (ℕ × ℕ)
  pub free : List ℕ
  pub used : List ℕ

new_blocks : ℕ → ℕ → List Block
new_blocks zero i = []
new_blocks (suc n) i = new_block i ∷ new_blocks n (i + 1)

new_ids : ℕ → ℕ → List ℕ
new_ids zero i = []
new_ids (suc n) i = i ∷ new_ids n (i + 1)

unfoldable pub create : ℕ → Settings → Bool → BlockManager
unfolding new_blocks new_ids new_block
create num_blocks settings recompute_last_hit = record {
  settings = settings;
  recompute_last_hit = recompute_last_hit;
  blocks = new_blocks num_blocks 0;
  hash_to_block_id = [];
  free = new_ids num_blocks 0;
  used = [];
}

-- The cache entry of a block's own hash is deleted; one that names another block stays.
unfoldable pub forget : ℕ → Option ℕ → List (ℕ × ℕ) → List (ℕ × ℕ)
forget block_id none d = d
forget block_id (some h) d = elim (Dict.get h d) [
  | none ↦ d
  | some other ↦ if other == block_id then Dict.without h d else d
]

unfoldable pub allocate_block : BlockManager → Option (ℕ × BlockManager)
allocate_block m = do
  (block_id, free) ← popleft m.free
  b ← get_elem? m.blocks block_id
  assert (b.ref_count == 0)
  some (
    block_id,
    record m {
      free = free;
      blocks = set m.blocks block_id (reset b);
      hash_to_block_id = forget block_id b.hash m.hash_to_block_id;
      used = Dict.add block_id m.used;
    },
  )

unfoldable pub deallocate_block : ℕ → BlockManager → Option BlockManager
deallocate_block block_id m = do
  b ← get_elem? m.blocks block_id
  assert (b.ref_count == 0)
  assert (contains block_id m.used)
  some (record m { used = Dict.discard block_id m.used; free = append block_id m.free })

-- _num_blocks
unfoldable pub needed_blocks : BlockManager → Sequence → ℕ → ℕ
needed_blocks m s num_lookahead =
    (num_planned_tokens s + num_lookahead + m.settings.block_size - 1) / m.settings.block_size

-- What the loop of can_allocate counts.
pub record Hits : Type 0 where
  pub num_cached_blocks : ℕ
  pub num_new_blocks : ℕ
  pub last_hit_held : Bool

-- One more block of the prefix is cached.
unfoldable pub hit : Hits → Bool → Hits
hit h held = record {
  num_cached_blocks = h.num_cached_blocks + 1;
  num_new_blocks = if held then h.num_new_blocks - 1 else h.num_new_blocks;
  last_hit_held = held;
}

-- The block that the cache has under the hash of block `i`, if it holds the same tokens.
unfoldable pub find_cached : BlockManager → Sequence → ℕ → ℕ → Option (Option ℕ)
find_cached m s i hash = elim (Dict.get hash m.hash_to_block_id) [
  | none ↦ some none
  | some block_id ↦ do
    b ← get_elem? m.blocks block_id
    tokens ← block m.settings s i
    some (if list_eq b.token_ids tokens then some block_id else none)
]

-- The loop of can_allocate from block `i`, over the blocks left; a miss ends it.
unfoldable pub count_hits : BlockManager → Sequence → ℕ → ℕ → Hits → Option Hits
count_hits m s zero i h = some h
count_hits m s (suc left) i h = do
  hash ← get_elem? s.block_hashes i
  found ← find_cached m s i hash
  elim found [
    | none ↦ some h
    | some block_id ↦ count_hits m s left (i + 1) (hit h (contains block_id m.used))
  ]

unfoldable pub give_back_last : Bool → Hits → Hits
give_back_last recompute_last_hit h =
    if recompute_last_hit && ltb 0 h.num_cached_blocks
    then (record h {
      num_cached_blocks = h.num_cached_blocks - 1;
      num_new_blocks = h.num_new_blocks + to_ℕ h.last_hit_held;
    })
    else h

abbrev pub no_hits : ℕ → Hits
no_hits num_new_blocks = record {
  num_cached_blocks = 0;
  num_new_blocks = num_new_blocks;
  last_hit_held = false;
}

-- The blocks that may be shared: all but the last of the sequence, if prefix caching is on.
abbrev pub shareable_blocks : BlockManager → Sequence → ℕ
shareable_blocks m s = if m.settings.enable_prefix_caching then num_blocks m.settings s - 1 else 0

-- The inner `none` is the -1 of an allocation that does not fit.
unfoldable pub can_allocate : BlockManager → Sequence → ℕ → Option (Option ℕ)
can_allocate m s num_lookahead = do
  counted ← count_hits m s (shareable_blocks m s) 0 (no_hits (needed_blocks m s num_lookahead))
  let hits = give_back_last m.recompute_last_hit counted
  some (if ltb (length m.free) hits.num_new_blocks then none else some hits.num_cached_blocks)

-- One more holder for a cached block; a block that nobody holds leaves the free queue.
unfoldable pub hold_cached : ℕ → BlockManager → Option BlockManager
hold_cached block_id m = do
  b ← get_elem? m.blocks block_id
  if contains block_id m.used
      then some
          (record m { blocks = set m.blocks block_id (record b { ref_count = b.ref_count + 1 }) })
      else do
        free ← remove block_id m.free
        some (record m {
          blocks = set m.blocks block_id (record b { ref_count = 1 });
          free = free;
          used = Dict.add block_id m.used;
        })

-- Block `i` of the prefix is shared: the body of the first loop of allocate.
unfoldable pub share : List ℕ → ℕ → BlockManager × List ℕ → Option (BlockManager × List ℕ)
share hashes i (m, table) = do
  hash ← get_elem? hashes i
  block_id ← Dict.get hash m.hash_to_block_id
  m' ← hold_cached block_id m
  some (m', table ++ block_id ∷ [])

-- The first loop of allocate, from block `i`, over the cached blocks left.
unfoldable pub take_cached : List ℕ → ℕ → ℕ → BlockManager × List ℕ → Option (BlockManager × List ℕ)
take_cached hashes zero i held = some held
take_cached hashes (suc left) i held = do
  held' ← share hashes i held
  take_cached hashes left (i + 1) held'

-- The table grows by fresh blocks: the second loop of allocate, and that of may_append.
unfoldable pub take_new : ℕ → BlockManager × List ℕ → Option (BlockManager × List ℕ)
take_new zero (m, table) = some (m, table)
take_new (suc left) (m, table) = do
  (block_id, m') ← allocate_block m
  take_new left (m', table ++ block_id ∷ [])

abbrev pub is_empty : List ℕ → Bool
is_empty [] = true
is_empty (x ∷ xs) = false

unfoldable pub allocate : BlockManager → Sequence → ℕ → ℕ → Option (BlockManager × Sequence)
allocate m s num_cached_blocks num_lookahead = do
  assert (is_empty s.block_table)
  held ← take_cached s.block_hashes num_cached_blocks 0 (m, s.block_table)
  (m', table) ← take_new (needed_blocks m s num_lookahead - num_cached_blocks) held
  some (
    m',
    record s {
      block_table = table;
      num_cached_tokens = num_cached_blocks * m.settings.block_size;
      num_published_blocks = num_cached_blocks;
    },
  )

-- One holder less. A count that would fall below zero is a fault here; the source would go on
-- with -1.
unfoldable pub release : ℕ → BlockManager → Option BlockManager
release block_id m = do
  b ← get_elem? m.blocks block_id
  assert (ltb 0 b.ref_count)
  let m' = record m { blocks = set m.blocks block_id (record b { ref_count = b.ref_count - 1 }) }
  if b.ref_count == 1 then deallocate_block block_id m' else some m'

unfoldable pub release_all : List ℕ → BlockManager → Option BlockManager
release_all [] m = some m
release_all (block_id ∷ rest) m = do m' ← release block_id m; release_all rest m'

unfoldable pub deallocate : BlockManager → Sequence → Option (BlockManager × Sequence)
deallocate m s = do
  m' ← release_all (reverse s.block_table) m
  some (m', record s { num_cached_tokens = 0; num_published_blocks = 0; block_table = [] })

unfoldable pub num_missing_blocks : BlockManager → Sequence → ℕ → ℕ
num_missing_blocks m s num_lookahead = needed_blocks m s num_lookahead - length s.block_table

unfoldable pub can_append : BlockManager → Sequence → ℕ → Bool
can_append m s num_lookahead = leb (num_missing_blocks m s num_lookahead) (length m.free)

unfoldable pub may_append : BlockManager → Sequence → ℕ → Option (BlockManager × Sequence)
may_append m s num_lookahead = do
  (m', table) ← take_new (num_missing_blocks m s num_lookahead) (m, s.block_table)
  some (m', record s { block_table = table })

unfoldable pub publish : BlockManager → Sequence → ℕ → Option BlockManager
publish m s i = do
  block_id ← get_elem? s.block_table i
  b ← get_elem? m.blocks block_id
  hash ← get_elem? s.block_hashes i
  tokens ← block m.settings s i
  some (record m {
    blocks = set m.blocks block_id (update b hash tokens);
    hash_to_block_id = Dict.put hash b.block_id m.hash_to_block_id;
  })

-- The loop of hash_blocks from block `i`, over the blocks left.
unfoldable pub publish_rest : ℕ → ℕ → Sequence → BlockManager → Option BlockManager
publish_rest zero i s m = some m
publish_rest (suc left) i s m = do m' ← publish m s i; publish_rest left (i + 1) s m'

unfoldable pub hash_blocks : BlockManager → Sequence → ℕ → Option (BlockManager × Sequence)
hash_blocks m s num_computed_tokens =
    let end = min num_computed_tokens s.num_tokens / m.settings.block_size in
    if m.settings.enable_prefix_caching
    then (do
      m' ← publish_rest (end - s.num_published_blocks) s.num_published_blocks s m
      some (m', record s { num_published_blocks = max s.num_published_blocks end }))
    else some (m, s)
