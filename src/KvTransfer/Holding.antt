-- ===== src/KvTransfer/Holding.antt =====
-- The blocks that a NIXL worker (lean_vllm/kv_transfer/nixl_connector.py) holds for its readers: a
-- request that is handed over is reported once, when it was read or when its time is up.
use lean_vllm.Prelude.{ℕ, ◌+◌, ◌≤◌, ◌≡◌, ap, Option, List, [], ◌++◌, to_ℕ, arith}
use lean_vllm.Prelude.Counting.{count, count-append}
use lean_vllm.Prelude.Dict
use lean_vllm.KvTransfer.{KvConnectorOutput, nothing}
use lean_vllm.KvTransfer.Nixl.{ReqToRecv}
use lean_vllm.KvTransfer.Worker.{
  Worker, is_held, holds, start_load_kv, expire_all, forget_all, get_finished, take_notifications,
}
use lean_vllm.KvTransfer.Dues.{
  due, IsSingle, due-hold_all, due-expire_all, due-forget_all, due-take_notifications,
}

module _ {H : Type 0} where
  -- The calls of a worker, with the requests that the engine handed over and those that it got
  -- reported, newest first. The engine hands a request over again only after its report; the
  -- transfer thread's other work leaves what is held alone.
  pub data Reached : Worker H → List ℕ → List ℕ → Type 0 where
    starts : (w : Worker H) → w.reqs_to_send ≡ [] → w.finished ≡ nothing → Reached w [] []
    hands :
        (w : Worker H) (handed reported : List ℕ) (now : ℕ) (ids : List ℕ)
        (recvs : List (ℕ × ReqToRecv))
        → ((id : ℕ) → due w id + count id ids ≤ 1)
        → Reached w handed reported
        → Reached (start_load_kv w now ids recvs) (ids ++ handed) reported
    notes :
        (w : Worker H) (handed reported : List ℕ) (now : ℕ) (messages : List (Option (ℕ × ℕ)))
        → Reached w handed reported
        → Reached (take_notifications w now messages) handed reported
    reports :
        (w : Worker H) (handed reported : List ℕ) (now : ℕ)
        → Reached w handed reported
        → Reached
            (get_finished w now).1
            handed
            ((get_finished w now).0.finished_sending ++ reported)
    transfers :
        (w w' : Worker H) (handed reported : List ℕ)
        → w'.reqs_to_send ≡ w.reqs_to_send
        → w'.finished.finished_sending ≡ w.finished.finished_sending
        → Reached w handed reported
        → Reached w' handed reported

  due-start_load_kv :
      (w : Worker H) (now : ℕ) (ids : List ℕ) (recvs : List (ℕ × ReqToRecv))
      → ((b : ℕ) → due w b + count b ids ≤ 1)
      → (b : ℕ) → due (start_load_kv w now ids recvs) b ≡ due w b + count b ids
  unfolding start_load_kv due
  due-start_load_kv w now ids recvs single b = due-hold_all w (now + w.timeout) ids single b

  -- What is due before is reported or still held after.
  due-get_finished :
      (w : Worker H) (now : ℕ)
      → IsSingle w
      → (b : ℕ)
      → due w b ≡ count b (get_finished w now).0.finished_sending + due (get_finished w now).1 b
  unfolding get_finished due
  due-get_finished w now single b =
      let w1 = expire_all w now w.reqs_to_send in
      let e1 : due w1 b ≡ due w b = due-expire_all w now w.reqs_to_send single b in
      let e2 : due (forget_all w1 now w1.notified) b ≡ due w1 b =
        due-forget_all w1 now w1.notified b in
      omega (arith, e1, e2)

  abbrev pub IsCounted : Worker H → List ℕ → List ℕ → Type 0
  IsCounted w handed reported =
      (id : ℕ) → (count id handed ≡ count id reported + due w id) × (due w id ≤ 1)

  -- In any order of hand-overs, notifications and reports, where a request is handed over again only
  -- after its report: a request was handed over as often as it was reported to the engine, and once
  -- more while its blocks are held or its report waits for the engine's next call, never twice.
  pub reached_lem :
      {w : Worker H} {handed reported : List ℕ}
      → Reached w handed reported
      → IsCounted w handed reported
  unfolding due Dict.get
  reached_lem (Reached.starts w held finished) id =
      let h : to_ℕ (holds w id) ≡ 0 = ap (λ d. to_ℕ (is_held (Dict.get id d))) held in
      let f : count id w.finished.finished_sending ≡ 0 =
        ap (λ (o : KvConnectorOutput). count id o.finished_sending) finished in
      (omega (arith, h, f), omega (arith, h, f))
  reached_lem (Reached.hands w handed reported now ids recvs fresh r) id =
      let before = reached_lem r id in
      let e = due-start_load_kv w now ids recvs fresh id in
      (omega (arith, before.0, e, count-append id ids handed), omega (arith, e, fresh id))
  reached_lem (Reached.notes w handed reported now messages r) id =
      let before = reached_lem r id in
      let e = due-take_notifications w now messages (λ b. (reached_lem r b).1) id in
      (omega (arith, before.0, e), omega (arith, before.1, e))
  reached_lem (Reached.reports w handed reported now r) id =
      let before = reached_lem r id in
      let e = due-get_finished w now (λ b. (reached_lem r b).1) id in
      (
        omega
            (arith, before.0, e, count-append id (get_finished w now).0.finished_sending reported),
        omega (arith, before.1, e),
      )
  reached_lem (Reached.transfers w w' handed reported same_held same_waiting r) id =
      let before = reached_lem r id in
      let h : to_ℕ (holds w' id) ≡ to_ℕ (holds w id) =
        ap (λ d. to_ℕ (is_held (Dict.get id d))) same_held in
      let f : count id w'.finished.finished_sending ≡ count id w.finished.finished_sending =
        ap (λ ids. count id ids) same_waiting in
      let e : due w' id ≡ due w id = omega (arith, h, f) in
      (omega (arith, before.0, e), omega (arith, before.1, e))
