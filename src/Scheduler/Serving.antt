-- ===== src/Scheduler/Serving.antt =====
-- The loop over the running sequences: each is scheduled, stays, or gives way.
use lean_vllm.Prelude.{
  ℕ, zero, suc, ◌+◌, ◌-◌, ◌<◌, ◌≡◌, ◌≢◌, refl, ap, ◌∙◌, inl, inr, ◌||◌, some, [], arith, leb, ◌==◌,
  length, Bool-cases, List-cases,
}
use lean_vllm.Prelude.Dict
use lean_vllm.Sequence.{Sequence, num_planned_tokens}
use lean_vllm.Sequence.Commit.{IsHashed-same}
use lean_vllm.Policy.{Entry}
use lean_vllm.Policy.Members.{times}
use lean_vllm.Scheduler.State.{write, num_lookahead_tokens}
use lean_vllm.Scheduler.Moves.{Step}
use lean_vllm.Scheduler.Steps.{trim_drafts, serve_decode, serve, serve_running}
use lean_vllm.Scheduler.Sound.{requeued, known_at, get_self}
use lean_vllm.Scheduler.Changes.{rewritten}
use lean_vllm.Scheduler.Steady.{active, waits, nobody, only, IsSteady, Quiet-IsWithin}
use lean_vllm.Scheduler.Room.{make_room-Room}
use lean_vllm.Scheduler.Rows.{
  Served, Served-as, grown-Served, run_row-Served, stays, trimmed-le-budget,
}

serve_decode-Served :
    (t : Step) (now : ℕ) (e : Entry) (s : Sequence)
    → IsSteady t (only e)
    → Dict.get e.seq_id t.scheduler.store ≡ some s
    → t.budget ≢ 0
    → length t.output.scheduled < t.scheduler.config.max_num_seqs
    → Served t (serve_decode t now e s)
unfolding serve_decode
serve_decode-Served t now e s v there some_left slot =
    let σ = t.scheduler in
    let s1 = trim_drafts t.budget s in
    let k = length s1.spec_token_ids + num_lookahead_tokens σ.config in
    let (hashed, _) = known_at e.seq_id s v (ground arith) there in
    let t1 : Step = record t { scheduler = write σ e.seq_id s1 } in
    let v1 : IsSteady t1 (only e) =
      unfold trim_drafts in
      rewritten v e.seq_id s _ there refl
        (IsHashed-same _ s _ hashed (refl, refl, refl, refl, refl)) refl
        (λ h. ((v.idle e.seq_id s h there).0, (v.idle e.seq_id s h there).1)) in
    let r = make_room-Room (length σ.running + 1) now t1 e k (omega arith) v1 in
    elim r.outcome [
      | inl (fits, steady, same, enough) ↦
          let back = get_self e.seq_id s1 σ.store in
          let g =
            grown-Served r.step now e s1 k steady (same ∙ back) (enough s1 back)
              (λ _. omega (arith, r.quiet.2, trimmed-le-budget t.budget s some_left))
              (omega (arith, slot, ap length r.quiet.3, ap (λ c. c.max_num_seqs) r.quiet.0)) in
          record {
            step = g.step;
            returns = simp (r.returns, fits, g.returns);
            steady = g.steady;
            no_longer = omega (arith, g.no_longer, r.no_longer);
            same_config = g.same_config ∙ r.quiet.0;
            same_connector = g.same_connector ∙ r.quiet.1;
            within = λ w. g.within (Quiet-IsWithin t1 r.step r.quiet w);
          }
      | inr (yields, steady) ↦ record {
        step = r.step;
        returns = simp (r.returns, yields);
        steady = steady;
        no_longer = r.no_longer;
        same_config = r.quiet.0;
        same_connector = r.quiet.1;
        within = λ w. Quiet-IsWithin t1 r.step r.quiet w;
      }
    ]

serve-Served : (t : Step) (now : ℕ) (e : Entry) → IsSteady t (only e) → Served t (serve t now e)
unfolding serve
serve-Served t now e v =
    let k = v.known e.seq_id (ground arith) in
    let s = k.sequence in
    let full = t.budget == 0 || leb t.scheduler.config.max_num_seqs (length t.output.scheduled) in
    let spent = leb s.max_tokens (num_planned_tokens s - s.num_prompt_tokens) in
    elim (Bool-cases full) [
      | inl no_more ↦ Served-as (simp (k.there, no_more)) (stays t e v)
      | inr more ↦ elim (Bool-cases spent) [
        | inl planned ↦ Served-as (simp (k.there, more, planned)) (stays t e v)
        | inr unspent ↦ elim (Bool-cases s.is_prefill) [
          | inl prefill ↦
              Served-as (simp (k.there, more, unspent, prefill)) (
                run_row-Served t now e s v k.there (λ decodes. absurd (ground arith))
                  (ground arith))
          | inr decodes ↦
              Served-as (simp (k.there, more, unspent, decodes))
                (serve_decode-Served t now e s v k.there (ground arith) (ground arith))
        ]
      ]
    ]

-- The loop over the running sequences, in a sound state and with more fuel than they are: it ends,
-- nothing in it fails, none is left in `running`, the state is sound again, and the budgets are kept
-- if they were.
pub serve_running-Served :
    (fuel now : ℕ) (t : Step)
    → length t.scheduler.running < fuel
    → IsSteady t nobody
    → (r : Served t (serve_running fuel now t)) × (r.step.scheduler.running ≡ [])
unfolding serve_running
serve_running-Served zero now t h v = absurd (omega arith)
serve_running-Served (suc fuel) now t h v = elim (List-cases t.scheduler.running) [
  | inl idle ↦ (
    record {
      step = t;
      returns = simp idle;
      steady = v;
      no_longer = omega arith;
      same_config = refl;
      same_connector = refl;
      within = λ w. w;
    },
    idle,
  )
  | inr (e, rest, busy) ↦
      let σ = t.scheduler in
      let t1 : Step = record t { scheduler = record σ { running = rest } } in
      let v1 : IsSteady t1 (only e) =
        requeued _ _ (waits t1) (active t1 (only e)) v (λ id. omega (arith, ap (times id) busy))
          (λ id s h g. v.idle id s h g) in
      let r1 = serve-Served t1 now e v1 in
      let (r, idle) =
        serve_running-Served fuel now r1.step (omega (arith, r1.no_longer, ap length busy))
          r1.steady in
      (
        record {
          step = r.step;
          returns = simp (busy, r1.returns, r.returns);
          steady = r.steady;
          no_longer = omega (arith, r.no_longer, r1.no_longer, ap length busy);
          same_config = r.same_config ∙ r1.same_config;
          same_connector = r.same_connector ∙ r1.same_connector;
          within = λ w. r.within (r1.within w);
        },
        idle,
      )
]
