-- ===== src/KvTransfer/Dues.antt =====
-- How often reports of the blocks that a NIXL worker (lean_vllm/kv_transfer/nixl_connector.py) holds
-- are due, before and after each of its calls.
use lean_vllm.Prelude.{
  ℕ, ◌+◌, ◌≤◌, ◌≡◌, refl, ap, ◌∙◌, inl, inr, true, false, not, ◌&&◌, Option, none, some, List, [],
  ◌∷◌, ltb, ◌==◌, if◌then◌else◌, to_ℕ, arith, Bool-cases,
}
use lean_vllm.Prelude.Counting.{count, contains-count}
use lean_vllm.Prelude.Dict
use lean_vllm.KvTransfer.Worker.{
  Worker, Notified, is_held, holds, release, has_read, release_if_read, hold_all, expire_all,
  forget_all, noted, take_notifications,
}

pub count-add :
    (a b : ℕ) (xs : List ℕ) → count a xs ≡ 0 → count b (Dict.add a xs) ≡ to_ℕ (a == b) + count b xs
unfolding Dict.add
count-add a b xs h = ground (arith, contains-count a xs, h)

pub count-cons : (a b : ℕ) (xs : List ℕ) → count b (a ∷ xs) ≡ to_ℕ (a == b) + count b xs
count-cons a b xs = refl

pub is_held-without :
    (a b : ℕ) (d : List (ℕ × ℕ))
    → is_held (Dict.get b (Dict.without a d)) ≡ (if a == b then false else is_held (Dict.get b d))
is_held-without a b d = ap is_held (Dict.get-without a b d) ∙ ground arith

pub is_held-put :
    (a b t : ℕ) (d : List (ℕ × ℕ))
    → is_held (Dict.get b (Dict.put a t d)) ≡ (if a == b then true else is_held (Dict.get b d))
is_held-put a b t d = ap is_held (Dict.get-put a b t d) ∙ ground arith

module _ {H : Type 0} where
  -- How often a report of a request is still due: it is held, or its report is waiting.
  unfoldable pub due : Worker H → ℕ → ℕ
  due w id = to_ℕ (holds w id) + count id w.finished.finished_sending

  abbrev pub IsSingle : Worker H → Type 0
  IsSingle w = (id : ℕ) → due w id ≤ 1

  pub due-release : (w : Worker H) (a b : ℕ) → IsSingle w → due (release w a) b ≡ due w b
  unfolding due release
  due-release w a b single = elim (Bool-cases (holds w a)) [
    | inl held ↦
        let none_waiting : count a w.finished.finished_sending ≡ 0 =
          ground (arith, single a, held) in
        simp held (
          ground (
            arith,
            held,
            is_held-without a b w.reqs_to_send,
            count-add a b w.finished.finished_sending none_waiting,
          ))
    | inr gone ↦ simp gone
  ]

  pub due-release_if_read :
      (w : Worker H) (a b : ℕ) → IsSingle w → due (release_if_read w a) b ≡ due w b
  unfolding release_if_read
  due-release_if_read w a b single = elim (Bool-cases (has_read (Dict.get a w.notified))) [
    | inl h ↦ simp h (due-release w a b single)
    | inr h ↦ simp h
  ]

  pub due-hold_all :
      (w : Worker H) (deadline : ℕ) (ids : List ℕ)
      → ((b : ℕ) → due w b + count b ids ≤ 1)
      → (b : ℕ) → due (hold_all w deadline ids) b ≡ due w b + count b ids
  unfolding hold_all due
  due-hold_all w deadline [] single b = ground arith
  due-hold_all w deadline (a ∷ ids) single b =
      let w1 = record w { reqs_to_send = Dict.put a deadline w.reqs_to_send } in
      let put_due : (c : ℕ) → due w1 c ≡ due w c + to_ℕ (a == c) =
        λ c. ground (arith, is_held-put a c deadline w.reqs_to_send, single c, single a) in
      let here : (c : ℕ) → due (release_if_read w1 a) c ≡ due w c + to_ℕ (a == c) =
        λ c. due-release_if_read w1 a c (λ e. omega (arith, put_due e, single e)) ∙ put_due c in
      due-hold_all (release_if_read w1 a) deadline ids (λ c. omega (arith, here c, single c)) b
      ∙ omega (arith, here b)

  pub due-expire_all :
      (w : Worker H) (now : ℕ) (items : List (ℕ × ℕ))
      → IsSingle w
      → (b : ℕ) → due (expire_all w now items) b ≡ due w b
  unfolding expire_all due
  due-expire_all w now [] single b = refl
  due-expire_all w now ((a, deadline) ∷ items) single b = elim (Bool-cases (ltb deadline now)) [
    | inl late ↦
        let w' = release w a in
        let w1 = record w' {
          finished = record w'.finished {
            expired_sending = Dict.add a w'.finished.expired_sending;
          };
        } in
        let same : (c : ℕ) → due w1 c ≡ due w c = λ c. due-release w a c single in
        simp late (due-expire_all w1 now items (λ c. omega (arith, same c, single c)) b ∙ same b)
    | inr early ↦ simp early (due-expire_all w now items single b)
  ]

  pub due-forget_all :
      (w : Worker H) (now : ℕ) (items : List (ℕ × Notified)) (b : ℕ)
      → due (forget_all w now items) b ≡ due w b
  unfolding forget_all due
  due-forget_all w now [] b = refl
  due-forget_all w now ((a, n) ∷ items) b =
      elim (Bool-cases (not (holds w a) && ltb (n.seen + w.timeout) now)) [
        | inl late ↦
            simp late
              (due-forget_all (record w { notified = Dict.without a w.notified }) now items b)
        | inr early ↦ simp early (due-forget_all w now items b)
      ]

  pub due-take_notifications :
      (w : Worker H) (now : ℕ) (messages : List (Option (ℕ × ℕ)))
      → IsSingle w
      → (b : ℕ) → due (take_notifications w now messages) b ≡ due w b
  unfolding take_notifications due
  due-take_notifications w now [] single b = refl
  due-take_notifications w now (none ∷ messages) single b =
      due-take_notifications w now messages single b
  due-take_notifications w now (some (a, num_readers) ∷ messages) single b =
      let w1 = record w {
        notified = Dict.put a (noted (Dict.get a w.notified) num_readers now) w.notified;
      } in
      let same : (c : ℕ) → due (release_if_read w1 a) c ≡ due w c =
        λ c. due-release_if_read w1 a c single in
      due-take_notifications (release_if_read w1 a) now messages
        (λ c. omega (arith, same c, single c)) b
      ∙ same b
