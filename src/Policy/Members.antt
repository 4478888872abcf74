-- ===== src/Policy/Members.antt =====
-- How often a sequence stands in a queue, under each operation on it.
use lean_vllm.Prelude.{
  subst, ℕ, ◌+◌, ◌<◌, ◌≡◌, refl, sym, ap, inl, inr, some, List, [], ◌∷◌, ◌++◌, arith, ◌==◌, to_ℕ,
  length, get_last?, Bool-cases,
}
use lean_vllm.Policy.{
  SchedulingPolicy, Entry, fcfs, priority, heappush, add, requeue, remove, max_from, victim,
  urgency_lt, insert_urgent, sort_urgent, by_urgency,
}

abbrev pub times : ℕ → List Entry → ℕ
times id [] = 0
times id (e ∷ q) = to_ℕ (e.seq_id == id) + times id q

pub times-append : (id : ℕ) (p q : List Entry) → times id (p ++ q) ≡ times id p + times id q
times-append id [] q = omega arith
times-append id (e ∷ p) q = omega (arith, times-append id p q)

times-heappush :
    (id : ℕ) (e : Entry) (q : List Entry)
    → times id (heappush e q) ≡ to_ℕ (e.seq_id == id) + times id q
unfolding heappush
times-heappush id e [] = refl
times-heappush id e (x ∷ q) = ground (arith, times-heappush id e q)

pub times-requeue :
    (id : ℕ) (p : SchedulingPolicy) (e : Entry) (q : List Entry)
    → times id (requeue p e q) ≡ to_ℕ (e.seq_id == id) + times id q
unfolding requeue
times-requeue id fcfs e q = refl
times-requeue id priority e q = times-heappush id e q

pub times-add :
    (id : ℕ) (p : SchedulingPolicy) (e : Entry) (q : List Entry)
    → times id (add p e q) ≡ to_ℕ (e.seq_id == id) + times id q
unfolding add
times-add id fcfs e q = omega (arith, times-append id q (e ∷ []))
times-add id priority e q = times-heappush id e q

times-insert_urgent :
    (id : ℕ) (e : Entry) (q : List Entry)
    → times id (insert_urgent e q) ≡ to_ℕ (e.seq_id == id) + times id q
unfolding insert_urgent
times-insert_urgent id e [] = refl
times-insert_urgent id e (x ∷ q) = ground (arith, times-insert_urgent id e q)

times-sort_urgent : (id : ℕ) (q : List Entry) → times id (sort_urgent q) ≡ times id q
unfolding sort_urgent
times-sort_urgent id [] = refl
times-sort_urgent id (e ∷ q) =
    omega (arith, times-insert_urgent id e (sort_urgent q), times-sort_urgent id q)

pub times-by_urgency :
    (id : ℕ) (p : SchedulingPolicy) (q : List Entry) → times id (by_urgency p q) ≡ times id q
unfolding by_urgency
times-by_urgency id fcfs q = refl
times-by_urgency id priority q = times-sort_urgent id q

-- A sequence of the queue can be removed, once.
pub remove_lem :
    (id : ℕ) (q : List Entry)
    → 0 < times id q
    → (r : List Entry) × (remove id q ≡ some r)
      × ((j : ℕ) → times j r + to_ℕ (id == j) ≡ times j q)
      × (length r + 1 ≡ length q)
unfolding remove
remove_lem id [] h = absurd (omega arith)
remove_lem id (e ∷ q) h = elim (Bool-cases (e.seq_id == id)) [
  | inl here ↦ (
    q,
    simp here,
    λ j. let s : e.seq_id ≡ id = ground arith in ground (arith, ap (λ k. k == j) s),
    omega arith,
  )
  | inr there ↦
      let (r, found, counts, size) = remove_lem id q (ground arith) in
      (e ∷ r, simp (there, found), λ j. omega (arith, counts j), omega arith)
]

times-get_last? :
    (x : Entry) (xs : List Entry)
    → (v : Entry) × (get_last? (x ∷ xs) ≡ some v) × (0 < times v.seq_id (x ∷ xs))
times-get_last? x [] = (x, refl, ground arith)
times-get_last? x (y ∷ xs) =
    let (v, last, member) = times-get_last? y xs in (v, last, omega (arith, member))

times-max_from : (best : Entry) (xs : List Entry) → 0 < times (max_from best xs).seq_id (best ∷ xs)
unfolding max_from
times-max_from best [] = ground arith
times-max_from best (x ∷ xs) = elim (Bool-cases (urgency_lt best x)) [
  | inl later ↦
      let e : max_from best (x ∷ xs) ≡ max_from x xs = simp later in
      subst (λ v. 0 < times v.seq_id (best ∷ x ∷ xs)) (sym e) (omega (arith, times-max_from x xs))
  | inr sooner ↦
      let e : max_from best (x ∷ xs) ≡ max_from best xs = simp sooner in
      subst (λ v. 0 < times v.seq_id (best ∷ x ∷ xs)) (sym e)
        (omega (arith, times-max_from best xs))
]

-- A running sequence gives way.
pub victim_lem :
    (p : SchedulingPolicy) (x : Entry) (xs : List Entry)
    → (v : Entry) × (victim p (x ∷ xs) ≡ some v) × (0 < times v.seq_id (x ∷ xs))
unfolding victim
victim_lem fcfs x xs = times-get_last? x xs
victim_lem priority x xs = (max_from x xs, refl, times-max_from x xs)
