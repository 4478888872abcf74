-- ===== src/Policy/Priority.antt =====
-- The Priority policy: what the heap gives out, the order of the running sequences and the victim.
use mathlib.Core.List.{Perm, Mem, Mem-prop, mem-cons, mem-cons_self, mem-cons_of_mem, not-mem-nil}
use mathlib.Core.List.Perm
use mathlib.Core.Logic.Or
use lean_vllm.Prelude.{
  ◌≡◌, refl, ap, false, some, get_last?, List, [], ◌∷◌, arith, inl, inr, Bool-cases, subst, sym,
}
use lean_vllm.Policy.{
  Entry, priority, key_lt, urgency_lt, heappush, add, pop, max_from, victim, insert_urgent,
  sort_urgent, by_urgency,
}
use lean_vllm.Policy.Order.{
  urgency_lt_asymm, urgency_lt_irrefl, urgency_trans, NoneBefore, NoneAfter, IsOrdered,
  NoneBefore-trans, UrgentAs, ServedBefore, ToAll, InOrder, urgency_lt-UrgentAs,
  key_lt-ServedBefore, urgency_lt-neither, NoneBefore-ToAll, IsOrdered-InOrder, NoneAfter-member,
  last_lem,
}
use lean_vllm.Policy.Heap.{
  Queued, heappush-perm, heappush-IsOrdered, heappush-cons, queued-IsOrdered,
}

-- Take any waiting queue that adds, requeues, pops and removals lead to, under the Priority policy.
-- After one more add, pop succeeds, and the entry that it gives out is served before every entry
-- that is left: its priority is lower, or the same with an earlier arrival, or both are the same and
-- its seq_id is not greater. What is left is a queue in that order, and with the entry it is what
-- was there and the new one.
pub pop-add_least :
    (e : Entry) (q : List Entry)
    → Queued q
    → (x : Entry) × (rest : List Entry) × (pop (add priority e q) ≡ some (x, rest))
      × ToAll ServedBefore x rest
      × InOrder ServedBefore rest
      × Perm (x ∷ rest) (e ∷ q)
unfolding add pop
pop-add_least e q r =
    let (x, rest, shape) = heappush-cons e q in
    let (least, ordered) =
      subst (IsOrdered key_lt) shape (heappush-IsOrdered e q (queued-IsOrdered r)) in
    let taken : pop (heappush e q) ≡ some (x, rest) = ap pop shape in
    (
      x,
      rest,
      taken,
      NoneBefore-ToAll key_lt ServedBefore key_lt-ServedBefore x rest least,
      IsOrdered-InOrder key_lt ServedBefore key_lt-ServedBefore rest ordered,
      subst (λ l. Perm l (e ∷ q)) shape (heappush-perm e q),
    )

insert_urgent-perm : (e : Entry) (xs : List Entry) → Perm (insert_urgent e xs) (e ∷ xs)
unfolding insert_urgent
insert_urgent-perm e [] = Perm.refl (e ∷ [])
insert_urgent-perm e (x ∷ xs) = elim (Bool-cases (urgency_lt x e)) [
  | inl later ↦ rw later (Perm.trans (Perm.cons x (insert_urgent-perm e xs)) (Perm.swap e x xs))
  | inr here ↦ rw here (Perm.refl (e ∷ x ∷ xs))
]

insert_urgent-NoneBefore :
    (a e : Entry) (xs : List Entry)
    → urgency_lt e a ≡ false
    → NoneBefore urgency_lt a xs
    → NoneBefore urgency_lt a (insert_urgent e xs)
unfolding insert_urgent
insert_urgent-NoneBefore a e [] h n = (h, tt)
insert_urgent-NoneBefore a e (x ∷ xs) h n = ground (arith, insert_urgent-NoneBefore a e xs h n.1)

insert_urgent-IsOrdered :
    (e : Entry) (xs : List Entry)
    → IsOrdered urgency_lt xs
    → IsOrdered urgency_lt (insert_urgent e xs)
unfolding insert_urgent
insert_urgent-IsOrdered e [] o = (tt, tt)
insert_urgent-IsOrdered e (x ∷ xs) o = elim (Bool-cases (urgency_lt x e)) [
  | inl later ↦ rw later (
    insert_urgent-NoneBefore x e xs (urgency_lt_asymm x e later) o.0,
    insert_urgent-IsOrdered e xs o.1,
  )
  | inr here ↦ rw here ((here, NoneBefore-trans urgency_lt urgency_trans e x xs here o.0), o)
]

sort_urgent_lem :
    (xs : List Entry) → Perm (sort_urgent xs) xs × IsOrdered urgency_lt (sort_urgent xs)
unfolding sort_urgent
sort_urgent_lem [] = (Perm.refl [], tt)
sort_urgent_lem (x ∷ xs) =
    let (same, ordered) = sort_urgent_lem xs in
    (
      Perm.trans (insert_urgent-perm x (sort_urgent xs)) (Perm.cons x same),
      insert_urgent-IsOrdered x (sort_urgent xs) ordered,
    )

-- The running sequences are reordered, none lost, and each is at least as urgent as those after it:
-- its priority is lower, or the same with no later arrival.
pub by_urgency_lem :
    (running : List Entry)
    → Perm (by_urgency priority running) running × InOrder UrgentAs (by_urgency priority running)
unfolding by_urgency
by_urgency_lem running =
    let (same, ordered) = sort_urgent_lem running in
    (same, IsOrdered-InOrder urgency_lt UrgentAs urgency_lt-UrgentAs _ ordered)

abbrev Greatest : Entry → List Entry → Entry → Type 0
Greatest best xs v = (urgency_lt v best ≡ false) × NoneAfter urgency_lt v xs × Mem v (best ∷ xs)

max_from-Greatest : (best : Entry) (xs : List Entry) → Greatest best xs (max_from best xs)
unfolding max_from
max_from-Greatest best [] = (urgency_lt_irrefl best, tt, mem-cons_self)
max_from-Greatest best (x ∷ xs) = elim (Bool-cases (urgency_lt best x)) [
  | inl later ↦
      let (above, rest, there) = max_from-Greatest x xs in
      let e : max_from best (x ∷ xs) ≡ max_from x xs = rw later in
      subst (Greatest best (x ∷ xs)) (sym e) (
        urgency_trans best x (max_from x xs) (urgency_lt_asymm best x later) above,
        (above, rest),
        mem-cons_of_mem best there,
      )
  | inr kept ↦
      let (above, rest, there) = max_from-Greatest best xs in
      let e : max_from best (x ∷ xs) ≡ max_from best xs = rw kept in
      subst (Greatest best (x ∷ xs)) (sym e) (
        above,
        (urgency_trans x best (max_from best xs) kept above, rest),
        Or.elim Mem-prop (mem-cons.0 there) (λ q. mem-cons.1 (Or.inl q))
            (λ m. mem-cons_of_mem best (mem-cons_of_mem x m)),
      )
]

all_above :
    (v : Entry) (xs : List Entry) → NoneAfter urgency_lt v xs → ToAll (λ a b. UrgentAs b a) v xs
all_above v [] n = tt
all_above v (x ∷ xs) n = (urgency_lt-UrgentAs x v n.0, all_above v xs n.1)

-- The last entry of a list that reorders the running sequences by urgency is one of the least
-- urgent of them.
last_urgent :
    (x : Entry) (xs sorted : List Entry)
    → Perm sorted (x ∷ xs)
    → IsOrdered urgency_lt sorted
    → (z : Entry) × (get_last? sorted ≡ some z) × Mem z (x ∷ xs) × NoneAfter urgency_lt z sorted
last_urgent x xs [] p o = absurd (not-mem-nil ((Perm.mem_iff p).1 mem-cons_self))
last_urgent x xs (y ∷ ys) p o =
    let (z, last, there, above) = last_lem urgency_lt urgency_lt_irrefl y ys o in
    (z, last, (Perm.mem_iff p).0 there, above)

-- Of running sequences, victim gives one that every other is at least as urgent as: of a lower
-- priority, or of the same with no later arrival. It has the priority and the arrival of the last
-- sequence that by_urgency lists.
pub victim-greatest :
    (x : Entry) (xs : List Entry)
    → (v : Entry) × (victim priority (x ∷ xs) ≡ some v)
      × Mem v (x ∷ xs)
      × ToAll (λ a b. UrgentAs b a) v (x ∷ xs)
      × (z : Entry) × (get_last? (by_urgency priority (x ∷ xs)) ≡ some z)
      × (z.priority ≡ v.priority)
      × (z.arrival_time ≡ v.arrival_time)
unfolding victim by_urgency
victim-greatest x xs =
    let v = max_from x xs in
    let (above, rest, there) = max_from-Greatest x xs in
    let (same, ordered) = sort_urgent_lem (x ∷ xs) in
    let (z, last, running, after) = last_urgent x xs (sort_urgent (x ∷ xs)) same ordered in
    let (priorities, arrivals) =
      urgency_lt-neither z v
        (NoneAfter-member urgency_lt z v (sort_urgent (x ∷ xs)) after ((Perm.mem_iff same).1 there))
        (NoneAfter-member urgency_lt v z (x ∷ xs) (above, rest) running) in
    (v, refl, there, all_above v (x ∷ xs) (above, rest), z, last, priorities, arrivals)
