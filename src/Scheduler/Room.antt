-- ===== src/Scheduler/Room.antt =====
-- _make_room: sequences give up their blocks until one has room or gives way itself.
use mathlib.Core.Option.{some-injective}
use lean_vllm.Prelude.{
  ℕ, zero, suc, ◌+◌, ◌≤◌, ◌<◌, ◌≡◌, refl, sym, ap, ◌∙◌, subst, inl, inr, ◌⊎◌, Bool, true, false,
  not, ◌&&◌, ◌||◌, Option, some, List, [], ◌∷◌, ◌++◌, arith, ltb, ◌==◌, length, ◌>>=◌, Bool-cases,
  List-cases,
}
use lean_vllm.Prelude.Dict
use lean_vllm.Sequence.{Sequence}
use lean_vllm.Sequence.Commit.{IsHashed-same}
use lean_vllm.BlockManager.{can_append}
use lean_vllm.BlockManager.Release.{deallocate-Released}
use lean_vllm.Policy.{Entry}
use lean_vllm.Policy.Members.{times, times-append, remove_lem, victim_lem}
use lean_vllm.Scheduler.State.{is_empty, fetch, release_blocks}
use lean_vllm.Scheduler.Moves.{Step, put_back, drop_capacity}
use lean_vllm.Scheduler.Steps.{give_way, evict, make_room}
use lean_vllm.Scheduler.Sound.{rest_of, focus, requeued, known_at, get_self}
use lean_vllm.Scheduler.Changes.{given_back}
use lean_vllm.Scheduler.Steady.{
  active, waits, nobody, only, IsSteady, Quiet, unchanged, Quiet-trans,
}
use lean_vllm.Scheduler.Preempt.{preempt-Preempted, dropped, drop_lem}

-- What serving one sequence leaves of the queues.
pub record Yielded (t : Step) (result : Option Step) : Type 0 where
  pub step : Step
  pub returns : result ≡ some step
  pub steady : IsSteady step nobody
  pub quiet : Quiet t step
  pub same_running : step.scheduler.running ≡ t.scheduler.running

pub put_back-IsSteady :
    (t : Step) (e : Entry) → IsSteady t (only e) → IsSteady (put_back t e) nobody
put_back-IsSteady t e v =
    requeued _ _ (waits t) (active (put_back t e) nobody) v
      (λ id. omega (arith, times-append id t.still_running (e ∷ []))) (λ id s h g. v.idle id s h g)

-- The sequence gives its blocks back and is dropped.
abbrev surrender : Step → ℕ → Entry → Sequence → Option Step
surrender t now e s = do
  σ ← release_blocks t.scheduler e.seq_id s
  s' ← fetch σ e.seq_id
  drop_capacity (record t { scheduler = σ }) now e.seq_id s'

surrender-Yielded :
    (t : Step) (now : ℕ) (e : Entry) (s : Sequence)
    → IsSteady t (only e)
    → Dict.get e.seq_id t.scheduler.store ≡ some s
    → Yielded t (surrender t now e s)
unfolding release_blocks drop_capacity
surrender-Yielded t now e s v there =
    let σ = t.scheduler in
    let (hashed, _) = known_at e.seq_id s v (ground arith) there in
    let (m', returns, r) =
      deallocate-Released σ.block_manager (rest_of e.seq_id s σ.store) s
        (focus e.seq_id s σ.store there v.blocks) in
    let s' : Sequence = record s {
      num_cached_tokens = 0;
      num_published_blocks = 0;
      block_table = [];
    } in
    let back = get_self e.seq_id s' σ.store in
    let w =
      given_back v m' e.seq_id s s' there r refl
        (IsHashed-same _ s s' hashed (refl, refl, refl, refl, refl)) refl
        (λ h. ((v.idle e.seq_id s h there).0, (v.idle e.seq_id s h there).1)) in
    let σ1 = record σ { store = Dict.put e.seq_id s' σ.store; block_manager = m' } in
    let (drops, w') =
      drop_lem σ1 now e.seq_id s' "capacity" _ _ (waits t) (active t nobody) w back (ground arith)
        (λ j. (omega arith, omega arith)) (ground (arith, v.distinct e.seq_id)) in
    record {
      step = record t {
        scheduler = dropped σ1 now e.seq_id s' "capacity";
        output = record t.output { dropped = t.output.dropped ++ e.seq_id ∷ [] };
      };
      returns = simp (returns, back, drops);
      steady = w';
      quiet = unchanged t;
      same_running = refl;
    }

give_way-Yielded :
    (t : Step) (now : ℕ) (e : Entry) (s : Sequence)
    → IsSteady t (only e)
    → Dict.get e.seq_id t.scheduler.store ≡ some s
    → Yielded t (give_way t now e s)
unfolding give_way
give_way-Yielded t now e s v there =
    elim (Bool-cases (not (is_empty t.still_running && is_empty t.output.scheduled))) [
      | inl beside ↦
          let p = preempt-Preempted t e nobody (
            requeued _ _ (waits t) (active t (λ id. only e id + nobody id)) v (λ id. omega arith)
              (λ id s' h g. v.idle id s' h g)) in
          record {
            step = p.step;
            returns = simp (beside, p.returns);
            steady = p.steady;
            quiet = p.quiet;
            same_running = p.same_running;
          }
      | inr alone ↦
          elim (Bool-cases (
            ltb 0 s.num_pending_tokens
            || not (is_empty t.scheduler.recving && is_empty t.scheduler.sending))) [
              | inl later ↦ record {
                step = put_back t e;
                returns = simp (alone, later);
                steady = put_back-IsSteady t e v;
                quiet = unchanged t;
                same_running = refl;
              }
              | inr never ↦
                  let y = surrender-Yielded t now e s v there in
                  record {
                    step = y.step;
                    returns = simp (alone, never, y.returns);
                    steady = y.steady;
                    quiet = y.quiet;
                    same_running = y.same_running;
                  }
            ]
    ]

record Evicted (t : Step) (e : Entry) (result : Option Step) : Type 0 where
  step : Step
  returns : result ≡ some step
  steady : IsSteady step (only e)
  quiet : Quiet t step
  shorter : length step.scheduler.running + 1 ≡ length t.scheduler.running
  same_entry : Dict.get e.seq_id step.scheduler.store ≡ Dict.get e.seq_id t.scheduler.store

evict-Evicted :
    (t : Step) (e x : Entry) (xs : List Entry)
    → t.scheduler.running ≡ x ∷ xs
    → IsSteady t (only e)
    → Evicted t e (evict t)
unfolding evict
evict-Evicted t e x xs r v =
    let σ = t.scheduler in
    let (worst, found, member) = victim_lem σ.config.policy x xs in
    let (rest, removed, counts, size) = remove_lem worst.seq_id (x ∷ xs) member in
    let same : (id : ℕ) → times id σ.running ≡ times id (x ∷ xs) = λ id. ap (times id) r in
    let apart : worst.seq_id == e.seq_id ≡ false = elim (Bool-cases (worst.seq_id == e.seq_id)) [
      | inr other ↦ other
      | inl here ↦
          let s : worst.seq_id ≡ e.seq_id = ground arith in
          let m : 0 < times e.seq_id (x ∷ xs) = subst (λ i. 0 < times i (x ∷ xs)) s member in
          absurd (ground (arith, v.distinct e.seq_id, same e.seq_id, m))
    ] in
    let t1 : Step = record t { scheduler = record σ { running = rest } } in
    let p = preempt-Preempted t1 worst (only e) (
      requeued _ _ (waits t) (active t1 (λ id. only worst id + only e id)) v
        (λ id. omega (arith, counts id, same id)) (λ id s h g. v.idle id s h g)) in
    record {
      step = p.step;
      returns = simp (r, found, removed, p.returns);
      steady = p.steady;
      quiet = p.quiet;
      shorter = omega (arith, size, ap length p.same_running, ap length r);
      same_entry = p.others e.seq_id apart;
    }

-- What _make_room leaves for the sequence `e`, which needs `k` slots past its next token.
pub record Room (t : Step) (e : Entry) (k : ℕ) (result : Option (Bool × Step)) : Type 0 where
  pub step : Step
  pub room : Bool
  pub returns : result ≡ some (room, step)
  pub quiet : Quiet t step
  pub no_longer : length step.scheduler.running ≤ length t.scheduler.running
  pub outcome :
      ((room ≡ true)
        × IsSteady step (only e)
        × (Dict.get e.seq_id step.scheduler.store ≡ Dict.get e.seq_id t.scheduler.store)
        × ((s : Sequence)
            → Dict.get e.seq_id t.scheduler.store ≡ some s
            → can_append step.scheduler.block_manager s k ≡ true))
      ⊎ ((room ≡ false) × IsSteady step nobody)

-- Take a step in progress whose state is sound, with `e` outside the queues, and more fuel than
-- there are running sequences. _make_room ends and nothing in it fails; the budget and the rows of
-- the step stay. If it answers true, can_append holds for the stored sequence, which is unchanged,
-- and the state is sound with `e` still outside the queues; otherwise `e` gave way, and the state is
-- sound without it.
pub make_room-Room :
    (fuel now : ℕ) (t : Step) (e : Entry) (k : ℕ)
    → length t.scheduler.running < fuel
    → IsSteady t (only e)
    → Room t e k (make_room fuel now t e k)
unfolding make_room
make_room-Room zero now t e k h v = absurd (omega arith)
make_room-Room (suc fuel) now t e k h v =
    let known = v.known e.seq_id (ground arith) in
    let s = known.sequence in
    elim (Bool-cases (can_append t.scheduler.block_manager s k)) [
      | inl enough ↦ record {
        step = t;
        room = true;
        returns = simp (known.there, enough);
        quiet = unchanged t;
        no_longer = omega arith;
        outcome = inl (
          refl,
          v,
          refl,
          λ s' there.
              subst (λ u. can_append t.scheduler.block_manager u k ≡ true)
                (some-injective _ _ (sym known.there ∙ there)) enough,
        );
      }
      | inr short ↦ elim (List-cases t.scheduler.running) [
        | inl idle ↦
            let y = give_way-Yielded t now e s v known.there in
            record {
              step = y.step;
              room = false;
              returns = simp (known.there, short, idle, y.returns);
              quiet = y.quiet;
              no_longer = omega (arith, ap length y.same_running);
              outcome = inr (refl, y.steady);
            }
        | inr (x, xs, busy) ↦
            let out = evict-Evicted t e x xs busy v in
            let r = make_room-Room fuel now out.step e k (omega (arith, out.shorter)) out.steady in
            record {
              step = r.step;
              room = r.room;
              returns = simp (known.there, short, busy, out.returns, r.returns);
              quiet = Quiet-trans t out.step r.step out.quiet r.quiet;
              no_longer = omega (arith, r.no_longer, out.shorter);
              outcome = elim r.outcome [
                | inl (fits, steady, same, enough) ↦ inl (
                  fits,
                  steady,
                  same ∙ out.same_entry,
                  λ s' there. enough s' (out.same_entry ∙ there),
                )
                | inr (yields, steady) ↦ inr (yields, steady)
              ];
            }
      ]
    ]
