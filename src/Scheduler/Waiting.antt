-- ===== src/Scheduler/Waiting.antt =====
-- The loops over the waiting sequences.
use lean_vllm.Prelude.{
  ℕ, zero, suc, ◌<◌, ◌≡◌, refl, ap, ◌∙◌, inl, inr, ◌&&◌, Option, none, some, arith, ltb, length,
  Bool-cases, List-cases,
}
use lean_vllm.Policy.Members.{times}
use lean_vllm.Scheduler.Moves.{Step}
use lean_vllm.Scheduler.Steps.{has_slot, admit_waiting, admit_prompts}
use lean_vllm.Scheduler.Steady.{nobody, IsSteady}
use lean_vllm.Scheduler.Admitting.{Admission, admit_next-Fate, admit_whole-Fate}

nothing-Admission : (t : Step) → IsSteady t nobody → Admission t (some t)
nothing-Admission t v = record {
  step = t;
  returns = refl;
  steady = v;
  same_still = refl;
  shorter = omega arith;
  same_config = refl;
  same_connector = refl;
  within = λ w. w;
}

Admission-as :
    {t : Step} {result result' : Option Step}
    → result' ≡ result
    → Admission t result
    → Admission t result'
Admission-as same a = record {
  step = a.step;
  returns = same ∙ a.returns;
  steady = a.steady;
  same_still = a.same_still;
  shorter = a.shorter;
  same_config = a.same_config;
  same_connector = a.same_connector;
  within = a.within;
}

Admission-then :
    {t : Step} {first result : Option Step} (a : Admission t first)
    → Admission a.step result
    → Admission t result
Admission-then a b = record {
  step = b.step;
  returns = b.returns;
  steady = b.steady;
  same_still = b.same_still ∙ a.same_still;
  shorter = omega (arith, a.shorter, b.shorter);
  same_config = b.same_config ∙ a.same_config;
  same_connector = b.same_connector ∙ a.same_connector;
  within = λ w. b.within (a.within w);
}

pub admit_waiting-Admission :
    (fuel now : ℕ) (t : Step)
    → length t.scheduler.waiting < fuel
    → t.scheduler.connector ≡ none
    → IsSteady t nobody
    → Admission t (admit_waiting fuel now t)
unfolding admit_waiting
admit_waiting-Admission zero now t h c v = absurd (omega arith)
admit_waiting-Admission (suc fuel) now t h c v = elim (List-cases t.scheduler.waiting) [
  | inl nothing ↦ Admission-as (simp nothing) (nothing-Admission t v)
  | inr (e, rest, heads) ↦ elim (Bool-cases (has_slot t && ltb 0 t.budget)) [
    | inr full ↦ Admission-as (simp (heads, full)) (nothing-Admission t v)
    | inl open_slot ↦
        let k = v.known e.seq_id (ground (arith, ap (times e.seq_id) heads)) in
        elim (admit_next-Fate t now e rest k.sequence v heads k.there c (ground arith)) [
          | inl ends ↦ Admission-as (simp (heads, open_slot, ends)) (nothing-Admission t v)
          | inr (_, a, taken, left) ↦ Admission-as (simp (heads, open_slot, taken)) (
              Admission-then a (
                admit_waiting-Admission fuel now a.step
                  (omega (arith, ap length left, ap length heads)) (a.same_connector ∙ c) a.steady))
        ]
  ]
]

pub admit_prompts-Admission :
    (fuel now : ℕ) (t : Step)
    → length t.scheduler.waiting < fuel
    → t.scheduler.connector ≡ none
    → IsSteady t nobody
    → Admission t (admit_prompts fuel now t)
unfolding admit_prompts
admit_prompts-Admission zero now t h c v = absurd (omega arith)
admit_prompts-Admission (suc fuel) now t h c v = elim (List-cases t.scheduler.waiting) [
  | inl nothing ↦ Admission-as (simp nothing) (nothing-Admission t v)
  | inr (e, rest, heads) ↦ elim (Bool-cases (has_slot t)) [
    | inr full ↦ Admission-as (simp (heads, full)) (nothing-Admission t v)
    | inl slot ↦
        let k = v.known e.seq_id (ground (arith, ap (times e.seq_id) heads)) in
        elim (admit_whole-Fate t now e rest k.sequence v heads k.there c slot) [
          | inl ends ↦ Admission-as (simp (heads, slot, ends)) (nothing-Admission t v)
          | inr (_, a, taken, left) ↦ Admission-as (simp (heads, slot, taken)) (
              Admission-then a (
                admit_prompts-Admission fuel now a.step
                  (omega (arith, ap length left, ap length heads)) (a.same_connector ∙ c) a.steady))
        ]
  ]
]
