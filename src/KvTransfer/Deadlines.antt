-- ===== src/KvTransfer/Deadlines.antt =====
-- How long a NIXL worker (lean_vllm/kv_transfer/nixl_connector.py) holds blocks that nobody reads.
use lean_vllm.Prelude.{
  ℕ, ◌+◌, ◌≤◌, ◌≡◌, refl, sym, ap, ◌∙◌, inl, inr, true, false, not, ◌&&◌, some, List, [], ◌∷◌, ltb,
  ◌==◌, arith, Bool-cases,
}
use lean_vllm.Prelude.Dict
use lean_vllm.KvTransfer.Worker.{
  Worker, Notified, is_held, holds, release, expire_all, forget_all, get_finished,
}

module _ {H : Type 0} where
  release-keeps :
      (w : Worker H) (a id t : ℕ)
      → Dict.get id (release w a).reqs_to_send ≡ some t
      → (Dict.get id w.reqs_to_send ≡ some t) × (a == id ≡ false)
  unfolding release
  release-keeps w a id t h = elim (Bool-cases (holds w a)) [
    | inl held ↦
        let g : Dict.get id (Dict.without a w.reqs_to_send) ≡ some t = simp held at h in
        let e = Dict.get-without a id w.reqs_to_send in (ground (arith, g, e), ground (arith, g, e))
    | inr gone ↦
        let g : Dict.get id w.reqs_to_send ≡ some t = simp gone at h in
        (
          g,
          elim (Bool-cases (a == id)) [
            | inr other ↦ other
            | inl same ↦
                let eq : a ≡ id = ground (arith, same) in
                let e : Dict.get a w.reqs_to_send ≡ some t =
                  ap (λ x. Dict.get x w.reqs_to_send) eq ∙ g in
                let h : holds w a ≡ true = ap is_held e in absurd (ground (arith, h, gone))
          ],
        )
  ]

  expire_all-keeps :
      (w : Worker H) (now : ℕ) (items : List (ℕ × ℕ)) (id t : ℕ)
      → Dict.get id (expire_all w now items).reqs_to_send ≡ some t
      → (Dict.get id w.reqs_to_send ≡ some t) × ((d : ℕ) → Dict.get id items ≡ some d → now ≤ d)
  unfolding expire_all Dict.get
  expire_all-keeps w now [] id t h = (h, λ d g. cc)
  expire_all-keeps w now ((a, deadline) ∷ items) id t h = elim (Bool-cases (ltb deadline now)) [
    | inl late ↦
        let w' = release w a in
        let w1 = record w' {
          finished = record w'.finished {
            expired_sending = Dict.add a w'.finished.expired_sending;
          };
        } in
        let rest = expire_all-keeps w1 now items id t (simp late at h) in
        let r = release-keeps w a id t rest.0 in (r.0, λ d g. rest.1 d (ground (arith, g, r.1)))
    | inr early ↦
        let rest = expire_all-keeps w now items id t (simp early at h) in
        (rest.0, λ d g. ground (arith, early, g, rest.1 d))
  ]

  -- The second loop leaves what is held alone.
  forget_all-held :
      (w : Worker H) (now : ℕ) (items : List (ℕ × Notified))
      → (forget_all w now items).reqs_to_send ≡ w.reqs_to_send
  unfolding forget_all
  forget_all-held w now [] = refl
  forget_all-held w now ((a, n) ∷ items) =
      elim (Bool-cases (not (holds w a) && ltb (n.seen + w.timeout) now)) [
        | inl late ↦
            simp late
              (forget_all-held (record w { notified = Dict.without a w.notified }) now items)
        | inr early ↦ simp early (forget_all-held w now items)
      ]

  -- What is held after the engine asked at `now` was held before and its deadline has not passed,
  -- so that the blocks of a request that nobody reads go back when its time is up.
  pub get_finished_lem :
      (w : Worker H) (now id deadline : ℕ)
      → Dict.get id (get_finished w now).1.reqs_to_send ≡ some deadline
      → (Dict.get id w.reqs_to_send ≡ some deadline) × (now ≤ deadline)
  unfolding get_finished
  get_finished_lem w now id deadline h =
      let w1 = expire_all w now w.reqs_to_send in
      let g : Dict.get id w1.reqs_to_send ≡ some deadline =
        ap (λ d. Dict.get id d) (sym (forget_all-held w1 now w1.notified)) ∙ h in
      let kept = expire_all-keeps w now w.reqs_to_send id deadline g in
      (kept.0, kept.1 deadline kept.0)
