-- ===== src/BlockManager/Growth.antt =====
-- can_append and may_append: a decoding request grows by the blocks that its next tokens need.
use mathlib.Core.Option.{some-injective}
use mathlib.Core.Path.{subst₂}
use lean_vllm.Prelude.{
  ℕ, ◌+◌, ◌-◌, ◌<◌, ◌≡◌, refl, sym, ap, inl, inr, ◌∙◌, true, some, List, [], ◌++◌, arith, leb→le,
  length, length-append, max,
}
use lean_vllm.Prelude.Counting.{count, count-append}
use lean_vllm.Sequence.{Sequence}
use lean_vllm.Sequence.Commit.{IsHashed}
use lean_vllm.BlockManager.{
  BlockManager, needed_blocks, num_missing_blocks, can_append, may_append, can_allocate, allocate,
  deallocate,
}
use lean_vllm.BlockManager.Valid.{IsValid, IsValid-ext, hold}
use lean_vllm.BlockManager.Fresh.{Taken, take_new-Taken}
use lean_vllm.BlockManager.Admission.{can_allocate_lem}
use lean_vllm.BlockManager.Release.{deallocate-Released, free_determined}

-- In a valid manager, after can_append has agreed, may_append succeeds: the old table stays in
-- front, it covers the planned tokens and the lookahead slots, each added block belonged to no
-- request and left the queue, and the manager is valid with the longer table.
pub may_append_lem :
    (m : BlockManager) (held : ℕ → ℕ) (s : Sequence) (num_lookahead : ℕ)
    → IsValid m (hold s.block_table held)
    → can_append m s num_lookahead ≡ true
    → (m' : BlockManager) × (fresh : List ℕ) × (may_append m s num_lookahead
        ≡ some (m', record s { block_table = s.block_table ++ fresh }))
      × IsValid m' (hold (s.block_table ++ fresh) held)
      × (length (s.block_table ++ fresh)
          ≡ max (length s.block_table) (needed_blocks m s num_lookahead))
      × ((i : ℕ) → 0 < count i fresh → hold s.block_table held i ≡ 0)
      × (length m'.free + length fresh ≡ length m.free)
unfolding may_append can_append num_missing_blocks
may_append_lem m held s num_lookahead v h =
    let t : Taken m (hold s.block_table held) s.block_table _ _ =
      take_new-Taken (needed_blocks m s num_lookahead - length s.block_table) m
        (hold s.block_table held) s.block_table m.free refl v (leb→le _ _ h) in
    (
      t.manager,
      t.fresh,
      rw t.returns,
      IsValid-ext _ _ (λ i. omega (arith, count-append i s.block_table t.fresh)) t.valid,
      omega (arith, length-append s.block_table t.fresh, t.as_many),
      λ i p. (t.exclusive i p).0,
      omega (arith, t.used_up, t.as_many),
    )

-- What may_append leaves of the manager, whose settings and size stay.
pub record Grown (m : BlockManager) (held : ℕ → ℕ) (s : Sequence) (num_lookahead : ℕ) : Type 0 where
  pub manager : BlockManager
  pub fresh : List ℕ
  pub returns :
      may_append m s num_lookahead
      ≡ some (manager, record s { block_table = s.block_table ++ fresh })
  pub valid : IsValid manager (hold (s.block_table ++ fresh) held)
  pub same_settings : manager.settings ≡ m.settings
  pub same_size : length manager.blocks ≡ length m.blocks

pub may_append-Grown :
    (m : BlockManager) (held : ℕ → ℕ) (s : Sequence) (num_lookahead : ℕ)
    → IsValid m (hold s.block_table held)
    → can_append m s num_lookahead ≡ true
    → Grown m held s num_lookahead
unfolding may_append can_append num_missing_blocks
may_append-Grown m held s num_lookahead v h =
    let t : Taken m (hold s.block_table held) s.block_table _ _ =
      take_new-Taken (needed_blocks m s num_lookahead - length s.block_table) m
        (hold s.block_table held) s.block_table m.free refl v (leb→le _ _ h) in
    record {
      manager = t.manager;
      fresh = t.fresh;
      returns = rw t.returns;
      valid = IsValid-ext _ _ (λ i. omega (arith, count-append i s.block_table t.fresh)) t.valid;
      same_settings = t.same_settings;
      same_size = t.same_size;
    }

-- A new request, hashed as its tokens, that can_allocate grants in a valid manager, that allocate
-- admits and deallocate then releases, leaves a valid manager with as many free blocks as before.
pub deallocate-allocate :
    (m m1 : BlockManager) (held : ℕ → ℕ) (s s1 : Sequence) (num_lookahead n : ℕ)
    → IsValid m held
    → s.block_table ≡ []
    → 0 < m.settings.block_size
    → IsHashed m.settings s
    → s.num_pending_tokens ≡ 0
    → can_allocate m s num_lookahead ≡ some (some n)
    → allocate m s n num_lookahead ≡ some (m1, s1)
    → (m2 : BlockManager) × (deallocate m1 s1
        ≡ some
            (m2, record s1 { num_cached_tokens = 0; num_published_blocks = 0; block_table = [] }))
      × IsValid m2 held
      × (length m2.free ≡ length m.free)
deallocate-allocate m m1 held s s1 num_lookahead n v new positive hashed quiet granted admitted =
    elim (can_allocate_lem m held s num_lookahead v new positive hashed quiet) [
      | inl full ↦ absurd (cc (full.0))
      | inr (k, fits, _, a) ↦
          let k' : k ≡ n = some-injective _ _ (some-injective _ _ (sym fits ∙ granted)) in
          let got : (a.manager, a.sequence) ≡ (m1, s1) =
            some-injective _ _
              (sym a.returns ∙ ap (λ j. allocate m s j num_lookahead) k' ∙ admitted) in
          let em : a.manager ≡ m1 = ap (λ t. t.0) got in
          let es : a.sequence ≡ s1 = ap (λ t. t.1) got in
          let v1 : IsValid m1 (hold s1.block_table held) =
            subst₂ (λ x y. IsValid x (hold y.block_table held)) em es a.valid in
          let (m2, returns, r) = deallocate-Released m1 held s1 v1 in
          (
            m2,
            returns,
            r.valid,
            free_determined m2 m held r.valid v
                (r.same_size ∙ ap (λ x. length x.blocks) (sym em) ∙ a.same_size),
          )
    ]
