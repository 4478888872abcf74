-- ===== src/KvTransfer/Consumer/Untouched.antt =====
-- The reads of a NIXL worker (lean_vllm/kv_transfer/nixl_connector.py) leave what it holds for its
-- own readers alone: a start of reads and a poll of them are steps of Holding's Reached.
use lean_vllm.Prelude.{
  ℕ, ◌+◌, String, ◌≡◌, refl, ◌∙◌, inl, inr, Bool, true, false, ◌&&◌, Option, none, some, List, [],
  ◌∷◌, ◌==◌, str_eq, length, Bool-cases,
}
use lean_vllm.KvTransfer.Nixl.{ReqToRecv}
use lean_vllm.KvTransfer.Heads.{Share, head_shares}
use lean_vllm.KvTransfer.Worker.{Load, RemoteRank}
use lean_vllm.KvTransfer.Holding.{Reached}
use lean_vllm.KvTransfer.Consumer.{
  Agent, HandshakeReply, Posted, XferState, Desc, Thread, Fallible, remember, accept, known_or_ask,
  handshake, heads, ranks_of, block_descs, some_past, remote_at, without_remote,
}
use lean_vllm.KvTransfer.Consumer.Loading.{
  notify_known, notify_all, fail, posted, notified, read_share, read_shares, read_all, start,
  checked, check_handles, end_poll, poll,
}

-- The same requests held, and the same reports waiting.
abbrev Same : {A : Type 0} {H : Type 0} → Thread A H → Thread A H → Type 0
Same t t' =
    (t'.worker.reqs_to_send ≡ t.worker.reqs_to_send)
    × (t'.worker.finished.finished_sending ≡ t.worker.finished.finished_sending)

module _ {A : Type 0} {H : Type 0} where
  trans-Same : (t t' t2 : Thread A H) → Same t t' → Same t' t2 → Same t t2
  trans-Same t t' t2 h g = (g.0 ∙ h.0, g.1 ∙ h.1)

module _ {A : Type 0} {H : Type 0} (nixl : Agent A H) (lcm : ℕ → ℕ → ℕ) where
  remember-Same :
      (t : Thread A H) (req : ReqToRecv) (port : ℕ) (reply : HandshakeReply) (r : A × Option String)
      → Same t (remember nixl lcm t req port reply r).0
  remember-Same t req port reply (a, none) = (refl, refl)
  remember-Same t req port reply (a, some agent_name) = (refl, refl)

  accept-Same :
      (t : Thread A H) (req : ReqToRecv) (port : ℕ) (r : A × Option HandshakeReply)
      → Same t (accept nixl lcm t req port r).0
  accept-Same t req port (a, none) = (refl, refl)
  accept-Same t req port (a, some reply) =
      elim (Bool-cases (
        reply.ok
        && str_eq reply.engine_id req.remote_engine_id
        && reply.tp_size == req.remote_tp_size
        && reply.same_layout)) [
          | inl good ↦
              simp good (remember-Same t req port reply (nixl.add_remote_agent a reply.metadata))
          | inr bad ↦ simp bad ((refl, refl))
        ]

  known_or_ask-Same :
      (t : Thread A H) (req : ReqToRecv) (port : ℕ) (r : Option RemoteRank)
      → Same t (known_or_ask nixl lcm t req port r).0
  known_or_ask-Same t req port none =
      accept-Same t req port (nixl.handshake t.agent req.remote_host port)
  known_or_ask-Same t req port (some r) =
      elim (Bool-cases (str_eq r.engine_id req.remote_engine_id)) [
        | inl kept ↦ simp kept ((refl, refl))
        | inr gone ↦
            let w = t.worker in
            let t1 : Thread A H = record {
              agent = nixl.remove_remote_agent t.agent r.agent_name;
              worker = record w { remotes = without_remote req.remote_host port w.remotes };
            } in
            simp gone (accept-Same t1 req port (nixl.handshake t1.agent req.remote_host port))
      ]

  handshake-Same :
      (t : Thread A H) (req : ReqToRecv) (remote_rank : ℕ)
      → Same t (handshake nixl lcm t req remote_rank).0
  unfolding handshake
  handshake-Same t req remote_rank = known_or_ask-Same t req _ _

  notify_known-Same :
      (t : Thread A H) (req : ReqToRecv) (remote_rank : ℕ) (r : Option RemoteRank)
      → Same t (notify_known nixl lcm t req remote_rank r)
  notify_known-Same t req remote_rank none = (refl, refl)
  notify_known-Same t req remote_rank (some r) =
      elim (Bool-cases (str_eq r.engine_id req.remote_engine_id)) [
        | inl kept ↦ simp kept ((refl, refl))
        | inr gone ↦ simp gone ((refl, refl))
      ]

  notify_all-Same :
      (t : Thread A H) (req : ReqToRecv) (ranks : List ℕ) → Same t (notify_all nixl lcm t req ranks)
  unfolding notify_all
  notify_all-Same t req [] = (refl, refl)
  notify_all-Same t req (remote_rank ∷ ranks) =
      let known = remote_at req.remote_host (req.remote_port + remote_rank) t.worker.remotes in
      let t1 = notify_known nixl lcm t req remote_rank known in
      trans-Same t t1 (notify_all nixl lcm t1 req ranks) (notify_known-Same t req remote_rank known)
        (notify_all-Same t1 req ranks)

  fail-Same : (t : Thread A H) (load : Load H) → Same t (fail nixl lcm t load).0
  unfolding fail
  fail-Same t load = notify_all-Same t load.req load.unnotified

  posted-Same :
      (t : Thread A H) (load : Load H) (s : Share) (rows : List Desc) (r : A × Posted H)
      → Same t (posted nixl lcm t load s rows r).0
  posted-Same t load s rows (a, Posted.raised) = (refl, refl)
  posted-Same t load s rows (a, Posted.refused handle) = (refl, refl)
  posted-Same t load s rows (a, Posted.started handle) = (refl, refl)

  notified-Same :
      (t : Thread A H) (load : Load H) (s : Share) (r : A × Bool)
      → Same t (notified nixl lcm t load s r).0
  notified-Same t load s (a, false) = (refl, refl)
  notified-Same t load s (a, true) = (refl, refl)

  read_share-Same :
      (t : Thread A H) (load : Load H) (s : Share) (is_first : Bool)
      (r : Thread A H × Fallible RemoteRank) (readers : Option (List Share))
      → Same t r.0
      → Same t (read_share nixl lcm load s is_first r readers).0
  read_share-Same t load s is_first (t1, Fallible.fault) readers h = h
  read_share-Same t load s is_first (t1, Fallible.gives r) none h = h
  read_share-Same t load s is_first (t1, Fallible.gives r) (some readers) h =
      let w = t1.worker in
      let req = load.req in
      let rows =
        block_descs w.regions req.local_block_ids s.local_head s.num_heads is_first w.device_id in
      let notification : String × ℕ = (req.remote_request_id, length readers) in
      let sent = nixl.send_notif t1.agent r.agent_name notification in
      let post = nixl.post t1.agent (record {
        local_rows = rows;
        remote_rows =
            block_descs r.regions req.remote_block_ids s.remote_head s.num_heads is_first
              r.device_id;
        mem_type = w.mem_type;
        remote_mem_type = r.mem_type;
        agent_name = r.agent_name;
        notification = notification;
      }) in
      elim (Bool-cases (some_past r.num_blocks req.remote_block_ids)) [
        | inl past ↦ simp past h
        | inr within ↦ elim (Bool-cases (length rows == 0)) [
          | inl nothing ↦
              simp (within, nothing)
                (trans-Same t t1 (notified nixl lcm t1 load s sent).0 h
                  (notified-Same t1 load s sent))
          | inr some_rows ↦
              simp (within, some_rows)
                (trans-Same t t1 (posted nixl lcm t1 load s rows post).0 h
                  (posted-Same t1 load s rows post))
        ]
      ]

  read_shares-Same :
      (t : Thread A H) (load : Load H) (num_heads : ℕ) (is_first : Bool) (shares : List Share)
      → Same t (read_shares nixl lcm t load num_heads is_first shares).0
  unfolding read_shares
  read_shares-Same t load num_heads is_first [] = (refl, refl)
  read_shares-Same t load num_heads is_first (s ∷ shares) =
      let req = load.req in
      let hand = handshake nixl lcm t req s.remote_rank in
      let readers = head_shares s.remote_rank req.remote_tp_size t.worker.tp_size num_heads in
      let one = read_share nixl lcm load s is_first hand readers in
      let rest = read_shares nixl lcm one.0 one.1 num_heads false shares in
      let first : Same t one.0 =
        read_share-Same t load s is_first hand readers (handshake-Same t req s.remote_rank) in
      let after : Same one.0 rest.0 = read_shares-Same one.0 one.1 num_heads false shares in
      elim (Bool-cases one.2) [
        | inl through ↦ simp through (trans-Same t one.0 rest.0 first after)
        | inr failed ↦ simp failed first
      ]

  read_all-Same :
      (t : Thread A H) (load : Load H) (num_heads : ℕ) (shares : Option (List Share))
      → Same t (read_all nixl lcm t load num_heads shares).0
  read_all-Same t load num_heads none = fail-Same t load
  read_all-Same t load num_heads (some shares) =
      let load1 : Load H = record load { unnotified = ranks_of shares } in
      let read = read_shares nixl lcm t load1 num_heads true shares in
      let reads : Same t read.0 = read_shares-Same t load1 num_heads true shares in
      elim (Bool-cases read.2) [
        | inl through ↦ simp through reads
        | inr failed ↦
            simp failed
              (trans-Same t read.0 (fail nixl lcm read.0 read.1).0 reads (fail-Same read.0 read.1))
      ]

  start-Same :
      (t : Thread A H) (now id : ℕ) (req : ReqToRecv) → Same t (start nixl lcm t now id req)
  unfolding start
  start-Same t now id req =
      let w = t.worker in
      let load : Load H = record {
        req = req;
        handles = [];
        unnotified = [];
        started = now;
        num_bytes = 0;
        failed = false;
      } in
      let num_heads = heads nixl lcm w req in
      read_all-Same t load num_heads (head_shares w.rank w.tp_size req.remote_tp_size num_heads)

  checked-Same :
      (t : Thread A H) (load : Load H) (handle : H) (pending : List H) (r : A × XferState)
      → Same t (checked nixl lcm t load handle pending r).0
  checked-Same t load handle pending (a, XferState.proc) = (refl, refl)
  checked-Same t load handle pending (a, XferState.done) = (refl, refl)
  checked-Same t load handle pending (a, XferState.broken) = fail-Same _ load

  check_handles-Same :
      (t : Thread A H) (load : Load H) (handles pending : List H)
      → Same t (check_handles nixl lcm t load handles pending).0
  unfolding check_handles
  check_handles-Same t load [] pending = (refl, refl)
  check_handles-Same t load (handle ∷ handles) pending =
      let state = nixl.check_xfer_state t.agent handle in
      let one = checked nixl lcm t load handle pending state in
      trans-Same t one.0 (check_handles nixl lcm one.0 one.1 handles one.2).0
        (checked-Same t load handle pending state) (check_handles-Same one.0 one.1 handles one.2)

  end_poll-Same :
      (now id : ℕ) (t : Thread A H) (load : Load H) (pending : List H)
      → Same t (end_poll nixl lcm now id (t, load, pending))
  end_poll-Same now id t load [] = elim (Bool-cases load.failed) [
    | inl failed ↦ simp failed ((refl, refl))
    | inr loaded ↦ simp loaded ((refl, refl))
  ]
  end_poll-Same now id t load (handle ∷ pending) = (refl, refl)

  poll-Same :
      (t : Thread A H) (now : ℕ) (loads : List (ℕ × Load H)) → Same t (poll nixl lcm t now loads)
  unfolding poll
  poll-Same t now [] = (refl, refl)
  poll-Same t now ((id, load) ∷ loads) =
      let c = check_handles nixl lcm t load load.handles [] in
      let t1 = end_poll nixl lcm now id c in
      trans-Same t t1 (poll nixl lcm t1 now loads)
        (trans-Same t c.0 t1 (check_handles-Same t load load.handles [])
          (end_poll-Same now id c.0 c.1 c.2))
        (poll-Same t1 now loads)

  -- After a start of reads, the requests handed over and reported are those of before.
  start-Reached :
      (t : Thread A H) (now id : ℕ) (req : ReqToRecv) (handed reported : List ℕ)
      → Reached t.worker handed reported
      → Reached (start nixl lcm t now id req).worker handed reported
  start-Reached t now id req handed reported =
      let t1 = start nixl lcm t now id req in
      let same = start-Same t now id req in
      Reached.transfers t.worker t1.worker handed reported same.0 same.1

  -- And after a poll of any loads.
  poll-Reached :
      (t : Thread A H) (now : ℕ) (loads : List (ℕ × Load H)) (handed reported : List ℕ)
      → Reached t.worker handed reported
      → Reached (poll nixl lcm t now loads).worker handed reported
  poll-Reached t now loads handed reported =
      let t1 = poll nixl lcm t now loads in
      let same = poll-Same t now loads in
      Reached.transfers t.worker t1.worker handed reported same.0 same.1
