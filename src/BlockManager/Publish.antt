-- ===== src/BlockManager/Publish.antt =====
-- hash_blocks: full blocks of computed tokens enter the prefix cache.
use native.Mathlib.Decide.{dec_lt, dec_le}
use lean_vllm.Prelude.{
  ℕ, zero, suc, ◌+◌, ◌-◌, ◌/◌, ◌≤◌, ◌<◌, ◌≡◌, ◌≢◌, refl, sym, ap, ◌∙◌, true, none, some, List,
  arith, ◌==◌, if◌then◌else◌, min, max, length, get_elem?, set, get_elem?-set, get_elem?-length,
  get_elem?_total, length-set, lt→ltb, Bool-cases, inl, inr, subst,
}
use lean_vllm.Prelude.Blocks.{div_mono}
use lean_vllm.Prelude.Dict
use lean_vllm.Sequence.Chain.{length-hash_chain}
use lean_vllm.Sequence.Commit.{IsHashed}
use lean_vllm.Sequence.{Settings, Sequence, slice, block, num_blocks}
use lean_vllm.BlockManager.{Block, BlockManager, update, publish, publish_rest, hash_blocks}
use lean_vllm.BlockManager.Valid.{IsValid}

-- Block `j` of the table is not in the cache yet.
abbrev pub IsUnpublished : BlockManager → Sequence → ℕ → Type 0
IsUnpublished m s j =
    (block_id : ℕ) × (get_elem? s.block_table j ≡ some block_id)
    × (b : Block) × (get_elem? m.blocks block_id ≡ some b)
    × (b.hash ≡ none)

-- Block `j` of the table carries the sequence's tokens and hash, and the cache has the hash.
abbrev pub IsPublished : BlockManager → Sequence → ℕ → Type 0
IsPublished m s j =
    (block_id : ℕ) × (get_elem? s.block_table j ≡ some block_id)
    × (b : Block) × (get_elem? m.blocks block_id ≡ some b)
    × (b.token_ids ≡ slice m.settings.block_size j s.token_ids)
    × (hash : ℕ) × (get_elem? s.block_hashes j ≡ some hash)
    × (b.hash ≡ some hash)
    × (entry : ℕ) × (Dict.get hash m.hash_to_block_id ≡ some entry)

-- What publishing block `i` changes.
record Publishes (m m' : BlockManager) (held : ℕ → ℕ) (s : Sequence) (i : ℕ) : Type 0 where
  valid : IsValid m' held
  published : IsPublished m' s i
  same_settings : m'.settings ≡ m.settings
  same_size : length m'.blocks ≡ length m.blocks
  others :
      (id j : ℕ)
      → get_elem? s.block_table i ≡ some id
      → j ≢ id
      → get_elem? m'.blocks j ≡ get_elem? m.blocks j
  entries :
      (hash entry : ℕ)
      → Dict.get hash m.hash_to_block_id ≡ some entry
      → (entry' : ℕ) × (Dict.get hash m'.hash_to_block_id ≡ some entry')

module _ (m : BlockManager) (held : ℕ → ℕ) (v : IsValid m held) (s : Sequence) where
  publish-Publishes :
      (i hash : ℕ)
      → i < num_blocks m.settings s
      → get_elem? s.block_hashes i ≡ some hash
      → IsUnpublished m s i
      → (m' : BlockManager) × (publish m s i ≡ some m') × Publishes m m' held s i
  unfolding publish update block
  publish-Publishes i hash h own (block_id, there, b, at, blank) =
      let tokens : List ℕ = slice m.settings.block_size i s.token_ids in
      let b' : Block = update b hash tokens in
      let id : b.block_id ≡ block_id = (v.at block_id b at).0 in
      let m' : BlockManager = record m {
        blocks = set m.blocks block_id b';
        hash_to_block_id = Dict.put hash b.block_id m.hash_to_block_id;
      } in
      let at' : get_elem? m'.blocks block_id ≡ some b' = ground (
        arith,
        get_elem?-set m.blocks block_id block_id b',
        get_elem?-length m.blocks block_id at,
      ) in
      (
        m',
        simp (there, at, own, lt→ltb _ _ h),
        record {
          valid = record {
            at = λ j c g.
                ground (arith, get_elem?-set m.blocks block_id j b', v.at j c, v.at block_id b at);
            in_range = λ j g. rw length-set (v.in_range j g);
            used = v.used;
            free = λ j. rw length-set (v.free j);
            cached = λ k j g. elim (Bool-cases (hash == k)) [
              | inl same ↦
                  let j' : j ≡ block_id =
                    ground (arith, Dict.get-put hash k b.block_id m.hash_to_block_id) in
                  (b', ap (get_elem? m'.blocks) j' ∙ at', ground arith)
              | inr other ↦
                  let old : Dict.get k m.hash_to_block_id ≡ some j =
                    ground (arith, Dict.get-put hash k b.block_id m.hash_to_block_id) in
                  let (c, atc, mine) = v.cached k j old in
                  let ne : j ≢ block_id = λ q. cc in
                  (c, ground (arith, get_elem?-set m.blocks block_id j b'), mine)
            ];
          };
          published = (
            block_id,
            there,
            b',
            at',
            refl,
            hash,
            own,
            refl,
            b.block_id,
            ground (arith, Dict.get-put hash hash b.block_id m.hash_to_block_id),
          );
          same_settings = refl;
          same_size = length-set m.blocks block_id b';
          others = λ j k e ne. ground (arith, get_elem?-set m.blocks block_id k b');
          entries = λ k e g. (
            if hash == k then b.block_id else e,
            ground (arith, Dict.get-put hash k b.block_id m.hash_to_block_id),
          );
        },
      )

-- No block stands twice in the table.
abbrev pub IsDistinct : List ℕ → Type 0
IsDistinct table =
    (j k block_id : ℕ)
    → get_elem? table j ≡ some block_id
    → get_elem? table k ≡ some block_id
    → j ≡ k

module _ (m m' : BlockManager) (held : ℕ → ℕ) (s : Sequence) (i : ℕ) (p : Publishes m m' held s i)
    (distinct : IsDistinct s.block_table) where
  still-IsPublished : (j : ℕ) → j < i → IsPublished m s j → IsPublished m' s j
  still-IsPublished j h (id, there, b, at, tokens, hash, own, mine, e, entry) =
      let id' : ℕ = p.published.0 in
      let there' : get_elem? s.block_table i ≡ some id' = p.published.1 in
      let ne : id ≢ id' =
        λ q. absurd (omega (arith, distinct j i id' (there ∙ ap some q) there')) in
      let (e', entry') = p.entries hash e entry in
      (
        id,
        there,
        b,
        p.others id' id there' ne ∙ at,
        tokens ∙ ap (λ c. slice c.block_size j s.token_ids) (sym p.same_settings),
        hash,
        own,
        mine,
        e',
        entry',
      )

  still-IsUnpublished : (j : ℕ) → i < j → IsUnpublished m s j → IsUnpublished m' s j
  still-IsUnpublished j h (id, there, b, at, blank) =
      let id' : ℕ = p.published.0 in
      let there' : get_elem? s.block_table i ≡ some id' = p.published.1 in
      let ne : id ≢ id' =
        λ q. absurd (omega (arith, distinct j i id' (there ∙ ap some q) there')) in
      (id, there, b, p.others id' id there' ne ∙ at, blank)

  IsPublished-below :
      (start j : ℕ)
      → start ≤ j
      → j < i + 1
      → ((k : ℕ) → start ≤ k → k < i → IsPublished m s k)
      → IsPublished m' s j
  IsPublished-below start j from h below = elim (dec_lt j i) [
    | yes lt ↦ still-IsPublished j lt (below j from lt)
    | no last ↦ let e : j ≡ i = omega arith in subst (IsPublished m' s) (sym e) p.published
  ]

publish_rest_lem :
    (left start i end : ℕ) (m : BlockManager) (held : ℕ → ℕ) (s : Sequence)
    → i + left ≡ end
    → IsValid m held
    → IsDistinct s.block_table
    → end ≤ num_blocks m.settings s
    → end ≤ length s.block_hashes
    → ((j : ℕ) → start ≤ j → j < i → IsPublished m s j)
    → ((j : ℕ) → i ≤ j → j < end → IsUnpublished m s j)
    → (m' : BlockManager) × (publish_rest left i s m ≡ some m')
      × IsValid m' held
      × ((j : ℕ) → start ≤ j → j < end → IsPublished m' s j)
unfolding publish_rest
publish_rest_lem zero start i end m held s e v d b n before after =
    (m, refl, v, λ j from h. before j from (omega arith))
publish_rest_lem (suc left) start i end m held s e v d b n before after =
    let (hash, own) = get_elem?_total s.block_hashes i (omega arith) in
    let (m1, step, p) =
      publish-Publishes m held v s i hash (omega arith) own (after i (omega arith) (omega arith)) in
    let (m2, rest, v2, published) =
      publish_rest_lem left start (i + 1) end m1 held s (omega arith) p.valid d
        (omega (arith, b, ap (λ c. num_blocks c s) p.same_settings)) n
        (λ j from h. IsPublished-below m m1 held s i p d start j from h before)
        (λ j h l.
          still-IsUnpublished m m1 held s i p d j (omega arith) (after j (omega arith) l)) in
    (m2, rw step rest, v2, published)

-- The full blocks of the committed tokens are hashed, and are among the sequence's blocks.
full_blocks :
    (c : Settings) (s : Sequence) (num_computed : ℕ)
    → 0 < c.block_size
    → c.enable_prefix_caching ≡ true
    → IsHashed c s
    → (min num_computed s.num_tokens / c.block_size ≤ num_blocks c s)
      × (min num_computed s.num_tokens / c.block_size ≤ length s.block_hashes)
unfolding num_blocks
full_blocks c s num_computed positive on hashed =
    let l : length s.block_hashes ≡ length s.token_ids / c.block_size =
      ap length hashed.hashes
      ∙ simp on (length-hash_chain c (length s.token_ids / c.block_size) s.token_ids) in
    (
      div_mono (min num_computed s.num_tokens) _ c.block_size positive (omega arith),
      rw l (
          div_mono (min num_computed s.num_tokens) _ c.block_size positive
            (omega (arith, hashed.counted))),
    )

-- With prefix caching on, and a table of distinct blocks whose entries from num_published_blocks
-- up to the full blocks of the tokens both computed and committed are in no prefix: hash_blocks
-- returns and keeps the manager valid, num_published_blocks rises to that end and never falls, and
-- each block between the two carries the request's tokens and hash, under which the cache has an
-- entry.
pub hash_blocks_lem :
    (m : BlockManager) (held : ℕ → ℕ) (s : Sequence) (num_computed end : ℕ)
    → min num_computed s.num_tokens / m.settings.block_size ≡ end
    → m.settings.enable_prefix_caching ≡ true
    → 0 < m.settings.block_size
    → IsHashed m.settings s
    → IsValid m held
    → IsDistinct s.block_table
    → ((j : ℕ) → s.num_published_blocks ≤ j → j < end → IsUnpublished m s j)
    → (m' : BlockManager) × (hash_blocks m s num_computed
        ≡ some (m', record s { num_published_blocks = max s.num_published_blocks end }))
      × IsValid m' held
      × ((j : ℕ) → s.num_published_blocks ≤ j → j < end → IsPublished m' s j)
unfolding hash_blocks publish_rest
hash_blocks_lem m held s num_computed end e on positive hashed v d after =
    elim (dec_le end s.num_published_blocks) [
      | yes done ↦
          let none_left : end - s.num_published_blocks ≡ 0 = omega arith in
          (m, simp (e, on, none_left), v, λ j from h. absurd (omega arith))
      | no more ↦
          let (b, n) = full_blocks m.settings s num_computed positive on hashed in
          let (m', returns, v', published) =
            publish_rest_lem (end - s.num_published_blocks) s.num_published_blocks
              s.num_published_blocks end m held s (omega arith) v d (omega arith) (omega arith)
              (λ j from h. absurd (omega arith)) after in
          (m', simp (e, on, returns), v', published)
    ]
