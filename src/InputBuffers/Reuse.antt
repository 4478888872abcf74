-- ===== src/InputBuffers/Reuse.antt =====
-- What a put returns, and how large the buffers get (lean_vllm/engine/input_buffers.py).
use lean_vllm.Prelude.{
  ℕ, ◌*◌, ◌≤◌, ◌≡◌, refl, ap, ◌∙◌, inl, inr, ◌⊎◌, max, String, str_eq_iff, true, Option, none, some,
  List, [], ◌∷◌, ◌++◌, length, take, drop, replicate, arith, Bool-cases, length-replicate,
}
use lean_vllm.Prelude.Names
use lean_vllm.InputBuffers.{InputBuffers, min_capacity, buffer_of, has_room, grow, overwrite, put}

take-append {ℓ} : {A : Type ℓ} (xs ys : List A) → take (length xs) (xs ++ ys) ≡ xs
take-append [] ys = refl
take-append (x ∷ xs) ys = ap (◌∷◌ x) (take-append xs ys)

-- A put returns its values, whatever the buffer of the name held before.
pub put_lem : (b : InputBuffers) (name : String) (values : List ℕ) → (put b name values).1 ≡ values
unfolding put
put_lem b name values =
    let n = length values in
    let b1 = grow b name n in
    let before = buffer_of (Names.get name b1.device) in
    let staged : take n (overwrite (buffer_of (Names.get name b1.host)) values) ≡ values =
      take-append values _ in
    ap (λ xs. take n (xs ++ drop (length xs) before)) staged ∙ take-append values _

room-le : (n : ℕ) (o : Option (List ℕ)) → has_room o n ≡ true → n ≤ length (buffer_of o)
room-le n none h = absurd (ground arith)
room-le n (some buffer) h = ground (arith, h)

-- A buffer either stays or is replaced by one that has room and at least twice the size, so that a
-- name's buffer is allocated anew at most once for each doubling of what is put there.
pub grow_lem :
    (b : InputBuffers) (name : String) (n : ℕ)
    → (n ≤ length (buffer_of (Names.get name (grow b name n).device)))
      × ((grow b name n ≡ b)
          ⊎ (2 * length (buffer_of (Names.get name b.device))
              ≤ length (buffer_of (Names.get name (grow b name n).device))))
unfolding grow
grow_lem b name n = elim (Bool-cases (has_room (Names.get name b.device) n)) [
  | inl room ↦ simp room ((room-le n (Names.get name b.device) room, inl refl))
  | inr small ↦
      let old = length (buffer_of (Names.get name b.device)) in
      let size = max (max n (2 * old)) min_capacity in
      let e : Names.get name (Names.put name (replicate size 0) b.device)
          ≡ some (replicate size 0) =
        Names.get-put name name (replicate size 0) b.device
        ∙ ground (arith, str_eq_iff name name) in
      let l : length (buffer_of (Names.get name (Names.put name (replicate size 0) b.device)))
          ≡ size =
        ap (λ o. length (buffer_of o)) e ∙ length-replicate size 0 in
      simp small ((omega (arith, l), inr (omega (arith, l))))
]
