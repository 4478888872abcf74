-- ===== src/Scheduler/Departure.antt =====
-- The end of reconcile's loop body: a request that ended gives everything back.
use lean_vllm.Prelude.{
  ℕ, ◌+◌, ◌<◌, ◌≡◌, refl, ◌∙◌, inl, inr, ◌⊎◌, String, Option, none, some, [], arith, str_eq_iff,
}
use lean_vllm.Prelude.Dict
use lean_vllm.Prelude.Names
use lean_vllm.Sequence.{Sequence, drop_pending}
use lean_vllm.Sequence.Commit.{IsHashed, IsHashed-same}
use lean_vllm.BlockManager.Release.{deallocate-Released}
use lean_vllm.Policy.Members.{times, remove_lem}
use lean_vllm.Scheduler.{finish}
use lean_vllm.Scheduler.State.{Scheduler, write, release_blocks, free}
use lean_vllm.Scheduler.Updates.{settle}
use lean_vllm.Scheduler.Sound.{rest_of, focus, IsSound, known_at, get_self}
use lean_vllm.Scheduler.Changes.{given_back, rewritten}
use lean_vllm.Scheduler.Preempt.{dropped, drop_lem}
use lean_vllm.Scheduler.Rounds.{IsReady}
use lean_vllm.Scheduler.Requests.{IsGone}

module _ (σ : Scheduler) (now id : ℕ) (s s' : Sequence) (v : IsReady σ)
    (no_connector : σ.connector ≡ none) (there : Dict.get id σ.store ≡ some s)
    (runs : 0 < times id σ.running) (hashed : IsHashed σ.block_manager.settings s')
    (same_table : s'.block_table ≡ s.block_table)
    (same_request : s'.request_id ≡ s.request_id) where
  v1 :
      IsSound σ.block_manager
        (Dict.put id s' σ.store)
        σ.seqs
        (λ j. times j σ.waiting)
        (λ j. times j σ.running)
  v1 =
      rewritten v id s s' there same_table hashed same_request
        (λ h. absurd (omega (arith, v.distinct id)))

  departs :
      (reason : String)
      → (σ' : Scheduler) × (settle σ now id s' (some reason) ≡ some σ')
        × IsReady σ'
        × IsGone σ' id s'.request_id reason
  unfolding settle free release_blocks finish drop_pending
  departs reason =
      let back = get_self id s' σ.store in
      let (left, removed, counts, _) = remove_lem id σ.running runs in
      let σ1 = record σ { store = Dict.put id s' σ.store; running = left } in
      let gone : times id σ.waiting + times id left ≡ 0 =
        ground (arith, counts id, v.distinct id) in
      let (_, named) = known_at id s' v1 (omega arith) back in
      let (drops, v2) =
        drop_lem σ1 now id s' reason (λ j. times j σ.waiting) (λ j. times j σ.running)
          (λ j. times j σ.waiting) (λ j. times j left) v1 back (omega arith)
          (λ j. (omega arith, omega (arith, counts j))) gone in
      let s1 : Sequence = drop_pending (finish s' reason now) in
      let back1 = get_self id s1 σ1.store in
      let store1 = Dict.put id s1 σ1.store in
      let (m', returns, r) =
        deallocate-Released σ.block_manager (rest_of id s1 store1) s1
          (focus id s1 store1 back1 v2.blocks) in
      let s2 : Sequence = record s1 {
        num_cached_tokens = 0;
        num_published_blocks = 0;
        block_table = [];
      } in
      let v3 =
        given_back v2 m' id s1 s2 back1 r refl
          (IsHashed-same _ s' s2 hashed (refl, refl, refl, refl, refl)) refl
          (λ h. absurd (omega (arith, gone))) in
      let σ2 : Scheduler = record σ {
        store = Dict.put id s2 store1;
        seqs = Names.without s'.request_id σ.seqs;
        block_manager = m';
        running = left;
      } in
      let frees : free (dropped σ1 now id s' reason) id s1 ≡ some σ2 =
        simp (no_connector, returns) in
      (
        σ2,
        simp (removed, drops, back1, frees),
        v3,
        (
          gone,
          Names.get-without s'.request_id s'.request_id σ.seqs
              ∙ ground (arith, str_eq_iff s'.request_id s'.request_id),
          (s2, get_self id s2 store1, refl, refl, refl),
        ),
      )

  -- A running request of a ready scheduler without a connector got its tokens: its sequence is
  -- hashed again and has the same blocks and the same request. The end of reconcile's loop body
  -- returns a ready scheduler. Without a reason the sequence is stored and still runs; with one it
  -- has left `running` and `seqs`, its blocks went back, and it is finished for that reason.
  pub settle_lem :
      (reason : Option String)
      → (σ' : Scheduler) × (settle σ now id s' reason ≡ some σ')
        × IsReady σ'
        × (((reason ≡ none) × (Dict.get id σ'.store ≡ some s') × (σ'.running ≡ σ.running))
            ⊎ ((why : String) × (reason ≡ some why) × IsGone σ' id s'.request_id why))
  unfolding settle
  settle_lem none = (write σ id s', refl, v1, inl (refl, get_self id s' σ.store, refl))
  settle_lem (some reason) =
      let (σ', returns, ready, gone) = departs reason in
      (σ', returns, ready, inr (reason, refl, gone))
