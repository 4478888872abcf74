-- ===== src/Scheduler/Rows.antt =====
-- What is scheduled of a running sequence, and what that leaves.
use lean_vllm.Prelude.{
  ℕ, ◌+◌, ◌-◌, ◌≤◌, ◌<◌, ◌≡◌, ◌≢◌, refl, ◌∙◌, Bool, true, false, Option, some, [], ◌∷◌, ◌++◌, arith,
  ◌>>=◌, length, min, length-take, length-append,
}
use lean_vllm.Prelude.Dict
use lean_vllm.Sequence.{Sequence, num_planned_tokens}
use lean_vllm.Sequence.Commit.{IsHashed-same}
use lean_vllm.BlockManager.{can_append, may_append}
use lean_vllm.BlockManager.Growth.{may_append-Grown}
use lean_vllm.Policy.{Entry}
use lean_vllm.Scheduler.{num_step_tokens, schedule_tokens}
use lean_vllm.Scheduler.State.{fetch}
use lean_vllm.Scheduler.Moves.{Step, put_back, schedule_seq}
use lean_vllm.Scheduler.Steps.{run_row, trim_drafts}
use lean_vllm.Scheduler.Sound.{rest_of, focus, unfocus, known_at, get_self}
use lean_vllm.Scheduler.Changes.{rewritten, written}
use lean_vllm.Scheduler.Steady.{nobody, only, IsSteady, IsWithin}
use lean_vllm.Scheduler.Room.{put_back-IsSteady}

pub num_step_tokens-le-budget :
    (chunked : Bool) (threshold : ℕ) (s : Sequence) (budget : ℕ)
    → (s.is_prefill ≡ false → 1 + length s.spec_token_ids ≤ budget)
    → num_step_tokens chunked threshold s budget ≤ budget
unfolding num_step_tokens
num_step_tokens-le-budget chunked threshold s budget decodes = ground (arith, decodes)

pub schedule_seq-IsWithin :
    (t : Step) (now id : ℕ) (s : Sequence)
    → (s.is_prefill ≡ false → 1 + length s.spec_token_ids ≤ t.budget)
    → length t.output.scheduled < t.scheduler.config.max_num_seqs
    → IsWithin t
    → IsWithin (schedule_seq t now id s)
unfolding schedule_seq schedule_tokens
schedule_seq-IsWithin t now id s decodes slot w =
    let c = t.scheduler.config in
    let le =
      num_step_tokens-le-budget c.enable_chunked_prefill c.long_prefill_token_threshold s t.budget
        decodes in
    (ground (arith, le, w.0), omega (arith, slot, length-append t.output.scheduled (id ∷ [])))

abbrev grow_row : Step → ℕ → Entry → ℕ → Option Step
grow_row t now e k = do
  let σ = t.scheduler
  s' ← fetch σ e.seq_id
  (m, s2) ← may_append σ.block_manager s' k
  some (
      run_row
        (record t {
          scheduler = record σ { store = Dict.put e.seq_id s2 σ.store; block_manager = m };
        })
        now e s2)

-- What serving one sequence leaves.
pub record Served (t : Step) (result : Option Step) : Type 0 where
  pub step : Step
  pub returns : result ≡ some step
  pub steady : IsSteady step nobody
  pub no_longer : length step.scheduler.running ≤ length t.scheduler.running
  pub same_config : step.scheduler.config ≡ t.scheduler.config
  pub same_connector : step.scheduler.connector ≡ t.scheduler.connector
  pub within : IsWithin t → IsWithin step

pub Served-as :
    {t : Step} {result result' : Option Step}
    → result' ≡ result
    → Served t result
    → Served t result'
Served-as same r = record {
  step = r.step;
  returns = same ∙ r.returns;
  steady = r.steady;
  no_longer = r.no_longer;
  same_config = r.same_config;
  same_connector = r.same_connector;
  within = r.within;
}

pub stays : (t : Step) (e : Entry) → IsSteady t (only e) → Served t (some (put_back t e))
stays t e v = record {
  step = put_back t e;
  returns = refl;
  steady = put_back-IsSteady t e v;
  no_longer = omega arith;
  same_config = refl;
  same_connector = refl;
  within = λ w. w;
}

pub run_row-Served :
    (t : Step) (now : ℕ) (e : Entry) (s : Sequence)
    → IsSteady t (only e)
    → Dict.get e.seq_id t.scheduler.store ≡ some s
    → (s.is_prefill ≡ false → 1 + length s.spec_token_ids ≤ t.budget)
    → length t.output.scheduled < t.scheduler.config.max_num_seqs
    → Served t (some (run_row t now e s))
unfolding run_row
run_row-Served t now e s v there decodes slot =
    let (hashed, _) = known_at e.seq_id s v (ground arith) there in
    record {
      step = put_back (schedule_seq t now e.seq_id s) e;
      returns = refl;
      steady = put_back-IsSteady (schedule_seq t now e.seq_id s) e (
          unfold schedule_seq schedule_tokens in
          rewritten v e.seq_id s _ there refl
            (IsHashed-same _ s _ hashed (refl, refl, refl, refl, refl)) refl
            (λ h. ((v.idle e.seq_id s h there).0, (v.idle e.seq_id s h there).1)));
      no_longer = unfold schedule_seq in omega arith;
      same_config = unfold schedule_seq in refl;
      same_connector = unfold schedule_seq in refl;
      within = λ w. schedule_seq-IsWithin t now e.seq_id s decodes slot w;
    }

pub trimmed-le-budget :
    (budget : ℕ) (s : Sequence)
    → budget ≢ 0
    → 1 + length (trim_drafts budget s).spec_token_ids ≤ budget
unfolding trim_drafts
trimmed-le-budget budget s some_left = omega (
  arith,
  some_left,
  length-take (min budget (s.max_tokens - (num_planned_tokens s - s.num_prompt_tokens)) - 1)
      s.spec_token_ids,
)

-- The decoding sequence that found room.
pub grown-Served :
    (t : Step) (now : ℕ) (e : Entry) (s : Sequence) (k : ℕ)
    → IsSteady t (only e)
    → Dict.get e.seq_id t.scheduler.store ≡ some s
    → can_append t.scheduler.block_manager s k ≡ true
    → (s.is_prefill ≡ false → 1 + length s.spec_token_ids ≤ t.budget)
    → length t.output.scheduled < t.scheduler.config.max_num_seqs
    → Served t (grow_row t now e k)
grown-Served t now e s k v there enough decodes slot =
    let σ = t.scheduler in
    let (hashed, _) = known_at e.seq_id s v (ground arith) there in
    let g =
      may_append-Grown σ.block_manager (rest_of e.seq_id s σ.store) s k
        (focus e.seq_id s σ.store there v.blocks) enough in
    let s2 : Sequence = record s { block_table = s.block_table ++ g.fresh } in
    let t2 : Step = record t {
      scheduler = record σ { store = Dict.put e.seq_id s2 σ.store; block_manager = g.manager };
    } in
    let v2 : IsSteady t2 (only e) =
      written v g.manager e.seq_id s s2 there g.same_settings
        (unfocus e.seq_id s s2 σ.store there g.valid)
        (IsHashed-same _ s s2 hashed (refl, refl, refl, refl, refl)) refl
        (λ h. absurd (ground (arith, v.distinct e.seq_id))) in
    let r = run_row-Served t2 now e s2 v2 (get_self e.seq_id s2 σ.store) decodes slot in
    record {
      step = r.step;
      returns = simp (there, g.returns, r.returns);
      steady = r.steady;
      no_longer = r.no_longer;
      same_config = r.same_config;
      same_connector = r.same_connector;
      within = r.within;
    }
