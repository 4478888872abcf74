-- ===== src/BlockManager/Admission.antt =====
-- can_allocate and allocate together, as the scheduler calls them for a waiting request.
use mathlib.Core.List.{reverse, reverse-cons, append_assoc}
use lean_vllm.Prelude.{
  ℕ, zero, suc, ◌+◌, ◌-◌, ◌*◌, ◌/◌, ◌≤◌, ◌<◌, ◌≡◌, refl, sym, ap, ◌∙◌, ◌⊎◌, Bool, true, false, none,
  some, List, [], ◌∷◌, ◌++◌, arith, ltb, if◌then◌else◌, length, get_elem?, length-append,
  length-reverse, get_elem?-append_length, Bool-cases, inl, inr, ltb→lt, not_ltb→le,
}
use native.Mathlib.Nat.{add-zero}
use native.Mathlib.Decide.{dec_lt}
use lean_vllm.Prelude.Blocks.{le-div, div-mul-le, div_mono, mul-le}
use lean_vllm.Prelude.Counting.{count, count-append, count-reverse}
use lean_vllm.Sequence.{Sequence, slice, num_blocks}
use lean_vllm.Sequence.Chain.{length-hash_chain}
use lean_vllm.Sequence.Commit.{IsHashed, IsHashed-nonempty}
use lean_vllm.BlockManager.{
  Block, BlockManager, Hits, count_hits, give_back_last, needed_blocks, no_hits, shareable_blocks,
  can_allocate, allocate, take_new, take_cached,
}
use lean_vllm.BlockManager.Valid.{IsValid, IsValid-ext, hold}
use lean_vllm.BlockManager.Fresh.{Taken, take_new-Taken}
use lean_vllm.BlockManager.Sharing.{HasPrefix, num_unheld, Shared, take_cached-Shared}
use lean_vllm.BlockManager.Lookup.{Counted, count_hits_lem, num_unheld-le}

-- The blocks that hold `n` tokens, less one, are full.
full_but_last : (n size : ℕ) → 0 < size → (n + size - 1) / size - 1 ≤ n / size
full_but_last n size p =
    le-div ((n + size - 1) / size - 1) n size p (grind (arith, div-mul-le (n + size - 1) size))

shareable-le-hashes :
    (m : BlockManager) (s : Sequence)
    → 0 < m.settings.block_size
    → IsHashed m.settings s
    → s.num_pending_tokens ≡ 0
    → shareable_blocks m s ≤ length s.block_hashes
unfolding num_blocks
shareable-le-hashes m s p v e = elim (Bool-cases m.settings.enable_prefix_caching) [
  | inr off ↦ simp off (omega arith)
  | inl on ↦
      let l : length s.block_hashes ≡ length s.token_ids / m.settings.block_size =
        ap length v.hashes
        ∙ simp on (
            length-hash_chain m.settings (length s.token_ids / m.settings.block_size)
              s.token_ids) in
      simp (on, e, v.counted, l)
        (rw add-zero (full_but_last (length s.token_ids) m.settings.block_size p))
]

-- The prefix that is left when the last hit is given back, with the free blocks still to find.
record Offered (held : ℕ → ℕ) (m : BlockManager) (s : Sequence) (needed bound : ℕ) (h : Hits)
    : Type 0 where
  prefix : List ℕ
  cached : h.num_cached_blocks ≡ length prefix
  new : h.num_new_blocks + length prefix ≡ needed + num_unheld held prefix
  present : HasPrefix m s prefix
  short : length prefix ≤ bound

give_back_last-Offered :
    (flag : Bool) (held : ℕ → ℕ) (m : BlockManager) (s : Sequence) (needed n : ℕ) (h : Hits)
    (prefix : List ℕ)
    → Counted held needed prefix h
    → HasPrefix m s prefix
    → length prefix ≤ n
    → Offered held m s needed n (give_back_last flag h)
unfolding give_back_last
give_back_last-Offered false held m s needed n h prefix c p l = record {
  prefix = prefix;
  cached = c.cached;
  new = c.new;
  present = p;
  short = l;
}
give_back_last-Offered true held m s needed n h [] c p l = record {
  prefix = [];
  cached = ground arith;
  new = ground arith;
  present = p;
  short = l;
}
give_back_last-Offered true held m s needed n h (x ∷ before) c p l = record {
  prefix = before;
  cached = ground arith;
  new = ground arith;
  present = p.6;
  short = omega arith;
}

-- The i-th block of the table, in a manager, holds the i-th block of the sequence's tokens.
abbrev pub HoldsBlock : BlockManager → Sequence → List ℕ → ℕ → Type 0
HoldsBlock m s table i =
    (block_id : ℕ) × (get_elem? table i ≡ some block_id)
    × (b : Block) × (get_elem? m.blocks block_id ≡ some b)
    × (b.token_ids ≡ slice m.settings.block_size i s.token_ids)

prefix-HoldsBlock :
    (m : BlockManager) (s : Sequence) (prefix fresh : List ℕ) (i : ℕ)
    → HasPrefix m s prefix
    → i < length prefix
    → (h : HoldsBlock m s (reverse prefix ++ fresh) i) × (0 < count h.0 prefix)
prefix-HoldsBlock m s [] fresh i p h = absurd (omega arith)
prefix-HoldsBlock m s (x ∷ before) fresh i (hash, own, entry, b, at, same, p) h =
    elim (dec_lt i (length before)) [
      | yes earlier ↦
          let ((id, there, c, found, tokens), used) =
            prefix-HoldsBlock m s before (x ∷ fresh) i p earlier in
          ((id, rw (reverse-cons, append_assoc) there, c, found, tokens), omega arith)
      | no last ↦
          let e : i ≡ length before = omega arith in
          (
            (
              x,
              rw (reverse-cons, append_assoc)
                  (get_elem?-append_length (reverse before) fresh x i
                    (omega (arith, length-reverse before))),
              b,
              at,
              same ∙ ap (λ k. slice m.settings.block_size k s.token_ids) (sym e),
            ),
            ground arith,
          )
    ]

allocate_lem :
    (m : BlockManager) (s : Sequence) (num_lookahead n : ℕ) (held : BlockManager × List ℕ)
    {m' : BlockManager} {table : List ℕ}
    → s.block_table ≡ []
    → take_cached s.block_hashes n 0 (m, []) ≡ some held
    → take_new (needed_blocks m s num_lookahead - n) held ≡ some (m', table)
    → allocate m s n num_lookahead
      ≡ some (
        m',
        record s {
          block_table = table;
          num_cached_tokens = n * m.settings.block_size;
          num_published_blocks = n;
        },
      )
unfolding allocate
allocate_lem m s num_lookahead n held new shared taken = simp (new, shared, taken)

-- What a granted request has.
pub record Admitted (m : BlockManager) (held : ℕ → ℕ) (s : Sequence) (num_lookahead n : ℕ)
    : Type 0 where
  pub manager : BlockManager
  pub sequence : Sequence
  pub returns : allocate m s n num_lookahead ≡ some (manager, sequence)
  pub valid : IsValid manager (hold sequence.block_table held)
  pub same_size : length manager.blocks ≡ length m.blocks
  pub same_settings : manager.settings ≡ m.settings
  pub same_row : sequence ≡ record s {
    block_table = sequence.block_table;
    num_cached_tokens = sequence.num_cached_tokens;
    num_published_blocks = sequence.num_published_blocks;
  }
  pub covers : length sequence.block_table ≡ needed_blocks m s num_lookahead
  pub cached : sequence.num_cached_tokens ≡ n * m.settings.block_size
  pub published : sequence.num_published_blocks ≡ n
  -- the cached blocks hold the sequence's own tokens
  pub reused : (i : ℕ) → i < n → HoldsBlock manager s sequence.block_table i

-- The cached blocks never cover all the tokens.
cached_lt_tokens :
    (n tokens size : ℕ)
    → 0 < tokens
    → 0 < size
    → n ≤ (tokens + size - 1) / size - 1
    → n * size < tokens
cached_lt_tokens zero tokens size t p h = let e : zero * size ≡ 0 = omega arith in rw e t
cached_lt_tokens (suc n) tokens size t p h = omega (
  arith,
  mul-le (suc (suc n)) ((tokens + size - 1) / size) size (omega arith),
  div-mul-le (tokens + size - 1) size,
)

shareable-le :
    (m : BlockManager) (s : Sequence) → shareable_blocks m s ≤ num_blocks m.settings s - 1
shareable-le m s = ground arith

num_blocks-le-needed :
    (m : BlockManager) (s : Sequence) (num_lookahead : ℕ)
    → 0 < m.settings.block_size
    → num_blocks m.settings s ≤ needed_blocks m s num_lookahead
unfolding num_blocks needed_blocks
num_blocks-le-needed m s num_lookahead p = div_mono _ _ m.settings.block_size p (omega arith)

num_blocks_quiet :
    (m : BlockManager) (s : Sequence)
    → s.num_pending_tokens ≡ 0
    → num_blocks m.settings s ≡ (s.num_tokens + m.settings.block_size - 1) / m.settings.block_size
unfolding num_blocks
num_blocks_quiet m s quiet = rw (quiet, add-zero)

can_allocate_returns :
    (m : BlockManager) (s : Sequence) (num_lookahead : ℕ) {h : Hits}
    → count_hits m s (shareable_blocks m s) 0 (no_hits (needed_blocks m s num_lookahead)) ≡ some h
    → can_allocate m s num_lookahead
      ≡ some (
          if ltb (length m.free) (give_back_last m.recompute_last_hit h).num_new_blocks
          then none
          else some (give_back_last m.recompute_last_hit h).num_cached_blocks)
unfolding can_allocate
can_allocate_returns m s num_lookahead r = simp r

module _ (m : BlockManager) (held : ℕ → ℕ) (s : Sequence) (num_lookahead : ℕ) (v : IsValid m held)
    (new : s.block_table ≡ []) where
  allocate-Admitted :
      (prefix : List ℕ)
      → HasPrefix m s prefix
      → length prefix ≤ needed_blocks m s num_lookahead
      → needed_blocks m s num_lookahead + num_unheld held prefix ≤ length m.free + length prefix
      → Admitted m held s num_lookahead (length prefix)
  allocate-Admitted prefix p short room =
      let r : Shared m s held [] prefix = take_cached-Shared m s held [] prefix v p in
      let t : Taken r.manager (hold prefix held) (reverse prefix) _ _ =
        take_new-Taken (needed_blocks m s num_lookahead - length prefix) r.manager
          (hold prefix held) (reverse prefix) r.manager.free refl r.change.valid
          (omega (arith, r.enough)) in
      record {
        manager = t.manager;
        sequence = record s {
          block_table = reverse prefix ++ t.fresh;
          num_cached_tokens = length prefix * m.settings.block_size;
          num_published_blocks = length prefix;
        };
        returns = allocate_lem m s num_lookahead (length prefix) _ new r.returns t.returns;
        valid =
            IsValid-ext _ _
              (λ i. omega (arith, count-append i (reverse prefix) t.fresh, count-reverse i prefix))
              t.valid;
        same_size = t.same_size ∙ r.change.same_size;
        same_row = refl;
        same_settings = t.same_settings ∙ r.change.same_settings;
        covers =
            omega (arith, length-append (reverse prefix) t.fresh, length-reverse prefix, t.as_many);
        cached = refl;
        published = refl;
        reused = λ i h.
            let ((id, there, b, found, tokens), used) =
              prefix-HoldsBlock m s prefix t.fresh i p h in
            let (b', found', tokens', _) = r.change.same_contents id b found in
            (
              id,
              there,
              b',
              t.kept id (omega arith) ∙ found',
              tokens'
                  ∙ tokens
                  ∙ ap (λ c. slice c.block_size i s.token_ids)
                      (sym (t.same_settings ∙ r.change.same_settings)),
            );
      }

  -- Take a valid manager and a new request: no block yet, none pending, hashed as its tokens.
  -- can_allocate returns. If it returns -1, the queue is shorter than the blocks that the request
  -- needs. If it returns n, then n blocks do not cover all its tokens, and allocate succeeds with
  -- them: the request gets all blocks it needs, the first n of them holding its own tokens, and the
  -- manager counts the new block table.
  pub can_allocate_lem :
      0 < m.settings.block_size
      → IsHashed m.settings s
      → s.num_pending_tokens ≡ 0
      → ((can_allocate m s num_lookahead ≡ some none)
          × (length m.free < needed_blocks m s num_lookahead))
        ⊎ ((n : ℕ) × (can_allocate m s num_lookahead ≡ some (some n))
            × (n * m.settings.block_size < s.num_tokens)
            × Admitted m held s num_lookahead n)
  can_allocate_lem positive hashed quiet =
      let needed : ℕ = needed_blocks m s num_lookahead in
      let blocks : shareable_blocks m s ≤ num_blocks m.settings s - 1 = shareable-le m s in
      let fits : num_blocks m.settings s ≤ needed =
        num_blocks-le-needed m s num_lookahead positive in
      let (h, found, r, c, p, short) =
        count_hits_lem m held v s needed (shareable_blocks m s) 0 [] (no_hits needed) refl
          (omega (arith, shareable-le-hashes m s positive hashed quiet)) (omega arith) (omega arith)
          (record { cached = refl; new = omega arith; last = refl }) tt in
      let o : Offered held m s needed (0 + shareable_blocks m s)
          (give_back_last m.recompute_last_hit h) =
        give_back_last-Offered m.recompute_last_hit held m s needed (0 + shareable_blocks m s) h
          found c p short in
      let partial : length o.prefix * m.settings.block_size < s.num_tokens =
        cached_lt_tokens (length o.prefix) s.num_tokens m.settings.block_size
          (IsHashed-nonempty m.settings s hashed) positive
          (omega (arith, o.short, blocks, num_blocks_quiet m s quiet)) in
      elim (Bool-cases
        (ltb (length m.free) (give_back_last m.recompute_last_hit h).num_new_blocks)) [
          | inl full ↦ inl (
            can_allocate_returns m s num_lookahead r ∙ simp full,
            omega (arith, ltb→lt _ _ full, o.new, num_unheld-le held o.prefix),
          )
          | inr room ↦ inr (
            length o.prefix,
            can_allocate_returns m s num_lookahead r ∙ simp (room, o.cached),
            partial,
            allocate-Admitted o.prefix o.present (omega (arith, o.short))
                (omega (arith, o.new, not_ltb→le _ _ room)),
          )
        ]
