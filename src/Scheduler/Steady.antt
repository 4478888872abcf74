-- ===== src/Scheduler/Steady.antt =====
-- The soundness of a step in progress, and what its operations leave alone.
use lean_vllm.Prelude.{ℕ, ◌+◌, ◌≤◌, ◌≡◌, refl, ap, ◌∙◌, ◌==◌, to_ℕ, length, arith}
use lean_vllm.Policy.{Entry}
use lean_vllm.Policy.Members.{times}
use lean_vllm.Scheduler.Moves.{Step}
use lean_vllm.Scheduler.Sound.{IsSound}

-- The sequences that run, were served, or are counted by `extra`.
abbrev pub active : Step → (ℕ → ℕ) → ℕ → ℕ
active t extra id = times id t.scheduler.running + times id t.still_running + extra id

abbrev pub waits : Step → ℕ → ℕ
waits t id = times id t.scheduler.waiting

abbrev pub nobody : ℕ → ℕ
nobody id = 0

abbrev pub only : Entry → ℕ → ℕ
only e id = to_ℕ (e.seq_id == id)

-- The state is sound, with some sequences in no queue that are counted by `extra`.
abbrev pub IsSteady : Step → (ℕ → ℕ) → Type 0
IsSteady t extra =
    IsSound t.scheduler.block_manager t.scheduler.store t.scheduler.seqs (waits t) (active t extra)

-- What no preemption or drop changes: the configuration, the connector, the budget and the rows of
-- the step with their tokens.
abbrev pub Quiet : Step → Step → Type 0
Quiet t t' =
    (t'.scheduler.config ≡ t.scheduler.config)
    × (t'.scheduler.connector ≡ t.scheduler.connector)
    × (t'.budget ≡ t.budget)
    × (t'.output.scheduled ≡ t.output.scheduled)
    × (t'.output.num_prefill_tokens ≡ t.output.num_prefill_tokens)
    × (t'.output.num_decode_tokens ≡ t.output.num_decode_tokens)

pub unchanged : (t : Step) → Quiet t t
unchanged t = (refl, refl, refl, refl, refl, refl)

pub Quiet-trans : (t u v : Step) → Quiet t u → Quiet u v → Quiet t v
Quiet-trans t u v p q = (q.0 ∙ p.0, q.1 ∙ p.1, q.2 ∙ p.2, q.3 ∙ p.3, q.4 ∙ p.4, q.5 ∙ p.5)

-- The step keeps its budgets: the tokens that are left and those that are scheduled make up
-- max_num_batched_tokens, and the rows are at most max_num_seqs.
abbrev pub IsWithin : Step → Type 0
IsWithin t =
    (t.budget + t.output.num_prefill_tokens + t.output.num_decode_tokens
      ≡ t.scheduler.config.max_num_batched_tokens)
    × (length t.output.scheduled ≤ t.scheduler.config.max_num_seqs)

pub Quiet-IsWithin : (t u : Step) → Quiet t u → IsWithin t → IsWithin u
Quiet-IsWithin t u q w = (
  omega (arith, ap (λ c. c.max_num_batched_tokens) q.0, q.2, q.4, q.5, w.0),
  omega (arith, ap (λ c. c.max_num_seqs) q.0, ap length q.3, w.1),
)
