-- ===== src/Tests/Queues.antt =====
-- Waiting queues and victims.
use mathlib.Core.List.{Perm, Mem}
use lean_vllm.Prelude.{◌≡◌, refl, some, List, [], ◌∷◌, ◌++◌, get_last?}
use lean_vllm.Prelude.Int.{pos, negsuc}
use lean_vllm.Policy.{
  Entry, fcfs, priority, add, requeue, pop, remove, victim, by_urgency, key_lt, urgency_lt,
}
use lean_vllm.Policy
use lean_vllm.Policy.Order.{ToAll, InOrder, UrgentAs, ServedBefore}
use lean_vllm.Policy.Fcfs.{preempt_order}
use lean_vllm.Policy.Heap.{Queued}
use lean_vllm.Policy.Priority.{pop-add_least, by_urgency_lem, victim-greatest}

abbrev early : Entry
early = record { priority = pos 0; arrival_time = 1; seq_id = 1 }

abbrev late : Entry
late = record { priority = pos 0; arrival_time = 5; seq_id = 2 }

abbrev urgent : Entry
urgent = record { priority = negsuc 0; arrival_time = 9; seq_id = 3 }

pop-add_least_example :
    (x : Entry) × (rest : List Entry) × (pop (add priority urgent (add priority late []))
      ≡ some (x, rest))
    × ToAll ServedBefore x rest
    × InOrder ServedBefore rest
    × Perm (x ∷ rest) (urgent ∷ add priority late [])
pop-add_least_example =
    pop-add_least urgent (add priority late []) (Queued.added late [] Queued.created)

by_urgency_example :
    Perm (by_urgency priority (late ∷ urgent ∷ early ∷ [])) (late ∷ urgent ∷ early ∷ [])
    × InOrder UrgentAs (by_urgency priority (late ∷ urgent ∷ early ∷ []))
by_urgency_example = by_urgency_lem (late ∷ urgent ∷ early ∷ [])

by_urgency_run : by_urgency priority (late ∷ urgent ∷ early ∷ []) ≡ urgent ∷ early ∷ late ∷ []
unfolding by_urgency Policy.sort_urgent Policy.insert_urgent urgency_lt
by_urgency_run = refl

victim-greatest_example :
    (v : Entry) × (victim priority (early ∷ late ∷ urgent ∷ []) ≡ some v)
    × Mem v (early ∷ late ∷ urgent ∷ [])
    × ToAll (λ a b. UrgentAs b a) v (early ∷ late ∷ urgent ∷ [])
    × (z : Entry) × (get_last? (by_urgency priority (early ∷ late ∷ urgent ∷ [])) ≡ some z)
    × (z.priority ≡ v.priority)
    × (z.arrival_time ≡ v.arrival_time)
victim-greatest_example = victim-greatest early (late ∷ urgent ∷ [])

preempt_order_example :
    (victim fcfs (early ∷ late ∷ []) ≡ some late)
    × (remove 2 (early ∷ late ∷ []) ≡ some (early ∷ []))
    × ((early ∷ []) ++ requeue fcfs late (urgent ∷ []) ≡ (early ∷ late ∷ []) ++ urgent ∷ [])
preempt_order_example = preempt_order (early ∷ []) (urgent ∷ []) late (refl, tt)
