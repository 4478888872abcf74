-- ===== src/Policy/Fcfs.antt =====
-- The Fcfs policy keeps arrival order across preemption and admission.
use mathlib.Core.List.{append_assoc}
use lean_vllm.Prelude.{ℕ, ◌≡◌, refl, false, some, List, [], ◌∷◌, ◌++◌, arith, ◌==◌, get_last?}
use lean_vllm.Policy.{Entry, fcfs, requeue, remove, victim}

-- No entry of the list has the id.
abbrev pub Absent : ℕ → List Entry → Type 0
Absent id [] = Unit
Absent id (x ∷ xs) = ((x.seq_id == id) ≡ false) × Absent id xs

last_entry : (xs : List Entry) (y : Entry) → get_last? (xs ++ y ∷ []) ≡ some y
last_entry [] y = refl
last_entry (x ∷ []) y = refl
last_entry (x ∷ z ∷ zs) y = last_entry (z ∷ zs) y

remove_last :
    (xs : List Entry) (y : Entry) → Absent y.seq_id xs → remove y.seq_id (xs ++ y ∷ []) ≡ some xs
unfolding remove
remove_last [] y h = ground arith
remove_last (x ∷ xs) y h = simp (h.0, remove_last xs y h.1)

-- The victim is the newest running sequence. Requeued, it stands before every waiting one, so that
-- the running and the waiting sequences together stay in the order that they had.
pub preempt_order :
    (older waiting : List Entry) (newest : Entry)
    → Absent newest.seq_id older
    → (victim fcfs (older ++ newest ∷ []) ≡ some newest)
      × (remove newest.seq_id (older ++ newest ∷ []) ≡ some older)
      × (older ++ requeue fcfs newest waiting ≡ (older ++ newest ∷ []) ++ waiting)
unfolding victim requeue
preempt_order older waiting newest h =
    (last_entry older newest, remove_last older newest h, rw append_assoc)
