-- ===== src/Policy/Heap.antt =====
-- The waiting queue of the Priority policy: every call on it keeps it in the order of its keys.
use mathlib.Core.List.{Perm}
use mathlib.Core.List.Perm
use mathlib.Core.Option.{some-injective}
use lean_vllm.Prelude.{
  ℕ, ◌≡◌, refl, ap, false, Option, none, some, ◌==◌, List, [], ◌∷◌, arith, inl, inr, Bool-cases,
  subst,
}
use lean_vllm.Policy.{Entry, priority, key_lt, heappush, add, requeue, pop, prepend, remove}
use lean_vllm.Policy.Order.{key_lt_asymm, key_trans, NoneBefore, IsOrdered, NoneBefore-trans}

prepended :
    (x : Entry) (r : Option (List Entry)) (q' : List Entry)
    → prepend x r ≡ some q'
    → (rest : List Entry) × (r ≡ some rest) × (x ∷ rest ≡ q')
prepended x none q' h = cc
prepended x (some rest) q' h = (rest, refl, some-injective _ _ h)

pub heappush-perm : (e : Entry) (q : List Entry) → Perm (heappush e q) (e ∷ q)
unfolding heappush
heappush-perm e [] = Perm.refl (e ∷ [])
heappush-perm e (x ∷ xs) = elim (Bool-cases (key_lt e x)) [
  | inl before ↦ rw before (Perm.refl (e ∷ x ∷ xs))
  | inr after ↦ rw after (Perm.trans (Perm.cons x (heappush-perm e xs)) (Perm.swap e x xs))
]

heappush-NoneBefore :
    (a e : Entry) (q : List Entry)
    → key_lt e a ≡ false
    → NoneBefore key_lt a q
    → NoneBefore key_lt a (heappush e q)
unfolding heappush
heappush-NoneBefore a e [] h n = (h, tt)
heappush-NoneBefore a e (x ∷ xs) h n = ground (arith, heappush-NoneBefore a e xs h n.1)

pub heappush-IsOrdered :
    (e : Entry) (q : List Entry) → IsOrdered key_lt q → IsOrdered key_lt (heappush e q)
unfolding heappush
heappush-IsOrdered e [] o = (tt, tt)
heappush-IsOrdered e (x ∷ xs) o = elim (Bool-cases (key_lt e x)) [
  | inl before ↦ rw before (
    ((
      key_lt_asymm e x before,
      NoneBefore-trans key_lt key_trans e x xs (key_lt_asymm e x before) o.0,
    )),
    o,
  )
  | inr after ↦ rw after (heappush-NoneBefore x e xs after o.0, heappush-IsOrdered e xs o.1)
]

pub heappush-cons :
    (e : Entry) (q : List Entry) → (x : Entry) × (rest : List Entry) × (heappush e q ≡ x ∷ rest)
unfolding heappush
heappush-cons e [] = (e, [], refl)
heappush-cons e (y ∷ ys) = elim (Bool-cases (key_lt e y)) [
  | inl before ↦ (e, y ∷ ys, simp before)
  | inr after ↦ (y, heappush e ys, simp after)
]

remove-NoneBefore :
    (a : Entry) (id : ℕ) (q q' : List Entry)
    → remove id q ≡ some q'
    → NoneBefore key_lt a q
    → NoneBefore key_lt a q'
unfolding remove
remove-NoneBefore a id [] q' h n = cc
remove-NoneBefore a id (x ∷ xs) q' h n = elim (Bool-cases (x.seq_id == id)) [
  | inl here ↦
      let e : xs ≡ q' = some-injective _ _ (simp here at h) in subst (NoneBefore key_lt a) e n.1
  | inr there ↦
      let (r, found, e) = prepended x (remove id xs) q' (simp there at h) in
      subst (NoneBefore key_lt a) e (n.0, remove-NoneBefore a id xs r found n.1)
]

remove-IsOrdered :
    (id : ℕ) (q q' : List Entry) → remove id q ≡ some q' → IsOrdered key_lt q → IsOrdered key_lt q'
unfolding remove
remove-IsOrdered id [] q' h o = cc
remove-IsOrdered id (x ∷ xs) q' h o = elim (Bool-cases (x.seq_id == id)) [
  | inl here ↦
      let e : xs ≡ q' = some-injective _ _ (simp here at h) in subst (IsOrdered key_lt) e o.1
  | inr there ↦
      let (r, found, e) = prepended x (remove id xs) q' (simp there at h) in
      subst (IsOrdered key_lt) e
        (remove-NoneBefore x id xs r found o.0, remove-IsOrdered id xs r found o.1)
]

-- The waiting queues that the calls of a scheduler with the Priority policy lead to.
pub data Queued : List Entry → Type 0 where
  created : Queued []
  added : (e : Entry) (q : List Entry) → Queued q → Queued (add priority e q)
  requeued : (e : Entry) (q : List Entry) → Queued q → Queued (requeue priority e q)
  popped : (e : Entry) (q q' : List Entry) → pop q ≡ some (e, q') → Queued q → Queued q'
  removed : (id : ℕ) (q q' : List Entry) → remove id q ≡ some q' → Queued q → Queued q'

pop-IsOrdered :
    (e : Entry) (q q' : List Entry)
    → pop q ≡ some (e, q')
    → IsOrdered key_lt q
    → IsOrdered key_lt q'
unfolding pop
pop-IsOrdered e [] q' h o = cc
pop-IsOrdered e (x ∷ xs) q' h o =
    let e : xs ≡ q' = ap (λ t. t.1) (some-injective _ _ h) in subst (IsOrdered key_lt) e o.1

pub queued-IsOrdered : {q : List Entry} → Queued q → IsOrdered key_lt q
unfolding add requeue
queued-IsOrdered Queued.created = tt
queued-IsOrdered (Queued.added e q r) = heappush-IsOrdered e q (queued-IsOrdered r)
queued-IsOrdered (Queued.requeued e q r) = heappush-IsOrdered e q (queued-IsOrdered r)
queued-IsOrdered (Queued.popped e q q' h r) = pop-IsOrdered e q q' h (queued-IsOrdered r)
queued-IsOrdered (Queued.removed id q q' h r) = remove-IsOrdered id q q' h (queued-IsOrdered r)
