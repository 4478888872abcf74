-- ===== src/Policy/Order.antt =====
-- The two orders of the Priority policy are total, what they say of priority, arrival and seq_id, and
-- lists in such an order.
use mathlib.Core.List.{Mem, not-mem-nil, mem-cons, mem-cons_self, mem-cons_of_mem}
use mathlib.Core.Logic.Or
use mathlib.Core.Bool.{Bool-set}
use lean_vllm.Prelude.{
  ◌≡◌, ◌≤◌, ◌<◌, ◌⊎◌, inl, inr, refl, ap, sym, subst, Bool, Bool-cases, true, false, some, List, [],
  ◌∷◌, arith, ltb, get_last?,
}
use lean_vllm.Prelude.Int.{ℤ, pos, negsuc, ltb_ℤ}
use lean_vllm.Policy.{Entry, key_lt, urgency_lt}

-- `a` is at least as urgent as `b`: its priority is lower, or the same with no later arrival.
abbrev pub UrgentAs : Entry → Entry → Type 0
UrgentAs a b =
    (ltb_ℤ a.priority b.priority ≡ true)
    ⊎ ((a.priority ≡ b.priority) × (a.arrival_time ≤ b.arrival_time))

-- `a` is served before `b`: by priority, then by arrival, then by seq_id.
abbrev pub ServedBefore : Entry → Entry → Type 0
ServedBefore a b =
    (ltb_ℤ a.priority b.priority ≡ true)
    ⊎ ((a.priority ≡ b.priority)
        × ((a.arrival_time < b.arrival_time)
            ⊎ ((a.arrival_time ≡ b.arrival_time) × (a.seq_id ≤ b.seq_id))))

ltb_ℤ-neither : (a b : ℤ) → ltb_ℤ a b ≡ false → ltb_ℤ b a ≡ false → a ≡ b
ltb_ℤ-neither (pos m) (pos n) h k = ap pos (ground arith)
ltb_ℤ-neither (pos m) (negsuc n) h k = absurd (ground arith)
ltb_ℤ-neither (negsuc m) (pos n) h k = absurd (ground arith)
ltb_ℤ-neither (negsuc m) (negsuc n) h k = ap negsuc (ground arith)

pub urgency_lt-UrgentAs : (a b : Entry) → urgency_lt b a ≡ false → UrgentAs a b
unfolding urgency_lt
urgency_lt-UrgentAs a b h = elim (Bool-cases (ltb_ℤ a.priority b.priority)) [
  | inl lower ↦ inl lower
  | inr same ↦ inr (ltb_ℤ-neither a.priority b.priority same (ground arith), ground arith)
]

pub key_lt-ServedBefore : (a b : Entry) → key_lt b a ≡ false → ServedBefore a b
unfolding key_lt
key_lt-ServedBefore a b h = elim (Bool-cases (ltb_ℤ a.priority b.priority)) [
  | inl lower ↦ inl lower
  | inr same ↦ inr (
    ltb_ℤ-neither a.priority b.priority same (ground arith),
    elim (Bool-cases (ltb a.arrival_time b.arrival_time)) [
      | inl earlier ↦ inl (ground arith)
      | inr other ↦ inr (ground arith, ground arith)
    ],
  )
]

-- Neither is more urgent than the other.
pub urgency_lt-neither :
    (a b : Entry)
    → urgency_lt a b ≡ false
    → urgency_lt b a ≡ false
    → (a.priority ≡ b.priority) × (a.arrival_time ≡ b.arrival_time)
unfolding urgency_lt
urgency_lt-neither a b h k =
    (ltb_ℤ-neither a.priority b.priority (ground arith) (ground arith), ground arith)

-- A relation to every entry of a list, and between the entries of a list in their order.
abbrev pub ToAll : (Entry → Entry → Type 0) → Entry → List Entry → Type 0
ToAll R e [] = Unit
ToAll R e (x ∷ xs) = R e x × ToAll R e xs

abbrev pub InOrder : (Entry → Entry → Type 0) → List Entry → Type 0
InOrder R [] = Unit
InOrder R (x ∷ xs) = ToAll R x xs × InOrder R xs

pub key_lt_asymm : (a b : Entry) → key_lt a b ≡ true → key_lt b a ≡ false
unfolding key_lt
key_lt_asymm a b h = ground arith

-- "not after" is transitive.
pub key_trans : (a b c : Entry) → key_lt b a ≡ false → key_lt c b ≡ false → key_lt c a ≡ false
unfolding key_lt
key_trans a b c h k = ground arith

pub urgency_lt_asymm : (a b : Entry) → urgency_lt a b ≡ true → urgency_lt b a ≡ false
unfolding urgency_lt
urgency_lt_asymm a b h = ground arith

pub urgency_lt_irrefl : (a : Entry) → urgency_lt a a ≡ false
unfolding urgency_lt
urgency_lt_irrefl a = ground arith

pub urgency_trans :
    (a b c : Entry) → urgency_lt b a ≡ false → urgency_lt c b ≡ false → urgency_lt c a ≡ false
unfolding urgency_lt
urgency_trans a b c h k = ground arith

-- No entry of the list comes before `e`.
abbrev pub NoneBefore : (Entry → Entry → Bool) → Entry → List Entry → Type 0
NoneBefore lt e [] = Unit
NoneBefore lt e (x ∷ xs) = (lt x e ≡ false) × NoneBefore lt e xs

-- No entry of the list comes after `e`.
abbrev pub NoneAfter : (Entry → Entry → Bool) → Entry → List Entry → Type 0
NoneAfter lt e [] = Unit
NoneAfter lt e (x ∷ xs) = (lt e x ≡ false) × NoneAfter lt e xs

abbrev pub IsOrdered : (Entry → Entry → Bool) → List Entry → Type 0
IsOrdered lt [] = Unit
IsOrdered lt (x ∷ xs) = NoneBefore lt x xs × IsOrdered lt xs

module _ (lt : Entry → Entry → Bool)
    (trans : (a b c : Entry) → lt b a ≡ false → lt c b ≡ false → lt c a ≡ false) where
  pub NoneBefore-trans :
      (e x : Entry) (xs : List Entry) → lt x e ≡ false → NoneBefore lt x xs → NoneBefore lt e xs
  NoneBefore-trans e x [] h n = tt
  NoneBefore-trans e x (y ∷ ys) h n = (trans e x y h n.0, NoneBefore-trans e x ys h n.1)

pub NoneBefore-ToAll :
    (lt : Entry → Entry → Bool) (R : Entry → Entry → Type 0)
    (says : (a b : Entry) → lt b a ≡ false → R a b) (e : Entry) (xs : List Entry)
    → NoneBefore lt e xs
    → ToAll R e xs
NoneBefore-ToAll lt R says e [] n = tt
NoneBefore-ToAll lt R says e (x ∷ xs) n = (says e x n.0, NoneBefore-ToAll lt R says e xs n.1)

pub IsOrdered-InOrder :
    (lt : Entry → Entry → Bool) (R : Entry → Entry → Type 0)
    (says : (a b : Entry) → lt b a ≡ false → R a b) (xs : List Entry)
    → IsOrdered lt xs
    → InOrder R xs
IsOrdered-InOrder lt R says [] o = tt
IsOrdered-InOrder lt R says (x ∷ xs) o =
    (NoneBefore-ToAll lt R says x xs o.0, IsOrdered-InOrder lt R says xs o.1)

module _ (lt : Entry → Entry → Bool) where
  pub NoneAfter-member :
      (e v : Entry) (xs : List Entry) → NoneAfter lt e xs → Mem v xs → lt e v ≡ false
  NoneAfter-member e v [] n m = absurd (not-mem-nil m)
  NoneAfter-member e v (x ∷ xs) n m =
      Or.elim (Bool-set _ _) (mem-cons.0 m) (λ q. subst (λ y. lt e y ≡ false) (sym q) n.0)
        (λ m'. NoneAfter-member e v xs n.1 m')

  NoneBefore-member :
      (e v : Entry) (xs : List Entry) → NoneBefore lt e xs → Mem v xs → lt v e ≡ false
  NoneBefore-member e v [] n m = absurd (not-mem-nil m)
  NoneBefore-member e v (x ∷ xs) n m =
      Or.elim (Bool-set _ _) (mem-cons.0 m) (λ q. subst (λ y. lt y e ≡ false) (sym q) n.0)
        (λ m'. NoneBefore-member e v xs n.1 m')

  -- The last entry of an ordered list: no entry comes after it.
  pub last_lem :
      (irrefl : (a : Entry) → lt a a ≡ false) (x : Entry) (xs : List Entry)
      → IsOrdered lt (x ∷ xs)
      → (z : Entry) × (get_last? (x ∷ xs) ≡ some z) × Mem z (x ∷ xs) × NoneAfter lt z (x ∷ xs)
  last_lem irrefl x [] o = (x, refl, mem-cons_self, (irrefl x, tt))
  last_lem irrefl x (y ∷ ys) o =
      let (z, last, there, above) = last_lem irrefl y ys o.1 in
      (z, last, mem-cons_of_mem x there, (NoneBefore-member x z (y ∷ ys) o.0 there, above))
