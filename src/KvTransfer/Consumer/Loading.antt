-- ===== src/KvTransfer/Consumer/Loading.antt =====
-- The loads of NixlConnectorWorker (lean_vllm/kv_transfer/nixl_connector.py): _start, _poll and _fail.
use lean_vllm.Prelude.{
  ℕ, ◌+◌, ◌-◌, String, Bool, true, false, Option, none, some, List, [], ◌∷◌, ◌++◌, ◌==◌,
  if◌then◌else◌, length,
}
use lean_vllm.Prelude.Dict
use lean_vllm.KvTransfer.Nixl.{ReqToRecv}
use lean_vllm.KvTransfer.Heads.{Share, head_shares}
use lean_vllm.KvTransfer.Worker.{Worker, Load, RemoteRank}
use lean_vllm.KvTransfer.Consumer.{
  Desc, block_descs, Posted, raised, refused, started, XferState, proc, done, broken, handshake,
  remote_at, some_past, sum_bytes, ranks_of, Thread, Fallible, fault, gives, heads, keeps, Agent,
}

module _ {A : Type 0} {H : Type 0} (nixl : Agent A H) (lcm : ℕ → ℕ → ℕ) where
  abbrev pub num_readers : Option (List Share) → ℕ
  num_readers none = 0
  num_readers (some shares) = length shares

  -- One rank of the loop of _fail. head_shares named the rank, so that it gives its readers too.
  abbrev pub notify_known : Thread A H → ReqToRecv → ℕ → Option RemoteRank → Thread A H
  notify_known t req remote_rank none = t
  notify_known t req remote_rank (some r) =
      if keeps nixl lcm req r
      then record t {
        agent =
            (nixl.send_notif t.agent r.agent_name (
              req.remote_request_id,
              num_readers (
                  head_shares remote_rank req.remote_tp_size t.worker.tp_size
                    (heads nixl lcm t.worker req)),
            )).0;
      }
      else t

  unfoldable pub notify_all : Thread A H → ReqToRecv → List ℕ → Thread A H
  notify_all t req [] = t
  notify_all t req (remote_rank ∷ ranks) =
      notify_all
        (notify_known t req remote_rank
          (remote_at req.remote_host (req.remote_port + remote_rank) t.worker.remotes))
        req ranks

  -- _fail: the ranks that no read reached free their blocks.
  unfoldable pub fail : Thread A H → Load H → Thread A H × Load H
  fail t load =
      (notify_all t load.req load.unnotified, record load { failed = true; unnotified = [] })

  -- What becomes of a posted read.
  abbrev pub posted :
      Thread A H → Load H → Share → List Desc → A × Posted H → Thread A H × Load H × Bool
  posted t load s rows (a, raised) = (record t { agent = a }, load, false)
  posted t load s rows (a, refused handle) =
      (record t { agent = a }, record load { handles = load.handles ++ handle ∷ [] }, false)
  posted t load s rows (a, started handle) = (
    record t { agent = a },
    record load {
      handles = load.handles ++ handle ∷ [];
      num_bytes = load.num_bytes + sum_bytes rows;
      unnotified = Dict.discard s.remote_rank load.unnotified;
    },
    true,
  )

  abbrev pub notified : Thread A H → Load H → Share → A × Bool → Thread A H × Load H × Bool
  notified t load s (a, false) = (record t { agent = a }, load, false)
  notified t load s (a, true) = (
    record t { agent = a },
    record load { unnotified = Dict.discard s.remote_rank load.unnotified },
    true,
  )

  -- A rank that answered: its blocks are read, or it is only notified where there is nothing to
  -- read from it.
  abbrev pub read_share :
      Load H
      → Share
      → Bool
      → Thread A H × Fallible RemoteRank
      → Option (List Share)
      → Thread A H × Load H × Bool
  read_share load s is_first (t, fault) readers = (t, load, false)
  read_share load s is_first (t, gives r) none = (t, load, false)
  read_share load s is_first (t, gives r) (some readers) =
      let req = load.req in
      let w = t.worker in
      let notification : String × ℕ = (req.remote_request_id, length readers) in
      let rows =
        block_descs w.regions req.local_block_ids s.local_head s.num_heads is_first w.device_id in
      if some_past r.num_blocks req.remote_block_ids
      then (t, load, false)
      else if length rows == 0
      then notified t load s (nixl.send_notif t.agent r.agent_name notification)
      else posted t load s rows (
          nixl.post t.agent (record {
            local_rows = rows;
            remote_rows =
                block_descs r.regions req.remote_block_ids s.remote_head s.num_heads is_first
                  r.device_id;
            mem_type = w.mem_type;
            remote_mem_type = r.mem_type;
            agent_name = r.agent_name;
            notification = notification;
          }))

  -- The loop of _start, with whether it went through.
  unfoldable pub read_shares :
      Thread A H → Load H → ℕ → Bool → List Share → Thread A H × Load H × Bool
  read_shares t load num_heads is_first [] = (t, load, true)
  read_shares t load num_heads is_first (s ∷ shares) =
      let req = load.req in
      let one =
        read_share load s is_first (handshake nixl lcm t req s.remote_rank)
          (head_shares s.remote_rank req.remote_tp_size t.worker.tp_size num_heads) in
      let rest = read_shares one.0 one.1 num_heads false shares in if one.2 then rest else one

  abbrev pub keep_load : ℕ → Thread A H × Load H → Thread A H
  keep_load id (t, load) =
      let w = t.worker in record t { worker = record w { loads = Dict.put id load w.loads } }

  abbrev pub read_all : Thread A H → Load H → ℕ → Option (List Share) → Thread A H × Load H
  read_all t load num_heads none = fail t load
  read_all t load num_heads (some shares) =
      let read =
        read_shares t (record load { unnotified = ranks_of shares }) num_heads true shares in
      if read.2 then (read.0, read.1) else fail read.0 read.1

  -- _start
  unfoldable pub start : Thread A H → ℕ → ℕ → ReqToRecv → Thread A H
  start t now id req =
      let w = t.worker in
      let load : Load H = record {
        req = req;
        handles = [];
        unnotified = [];
        started = now;
        num_bytes = 0;
        failed = false;
      } in
      let num_heads = heads nixl lcm w req in
      keep_load id
        (read_all t load num_heads (head_shares w.rank w.tp_size req.remote_tp_size num_heads))

  abbrev pub checked :
      Thread A H → Load H → H → List H → A × XferState → Thread A H × Load H × List H
  checked t load handle pending (a, proc) = (record t { agent = a }, load, pending ++ handle ∷ [])
  checked t load handle pending (a, done) =
      (record t { agent = nixl.release_xfer_handle a handle }, load, pending)
  checked t load handle pending (a, broken) =
      let failed = fail (record t { agent = nixl.release_xfer_handle a handle }) load in
      (failed.0, failed.1, pending)

  -- The inner loop of _poll, with the handles that are pending.
  unfoldable pub check_handles :
      Thread A H → Load H → List H → List H → Thread A H × Load H × List H
  check_handles t load [] pending = (t, load, pending)
  check_handles t load (handle ∷ handles) pending =
      let one = checked t load handle pending (nixl.check_xfer_state t.agent handle) in
      check_handles one.0 one.1 handles one.2

  -- A load with no read in flight has ended.
  abbrev pub report_load : Worker H → ℕ → ℕ → Load H → Worker H
  report_load w now id load =
      let loads = Dict.without id w.loads in
      let f = w.finished in
      if load.failed
      then record w {
        loads = loads;
        finished = record f { failed_recving = Dict.add id f.failed_recving };
      }
      else record w {
        loads = loads;
        finished = record f {
          finished_recving = Dict.add id f.finished_recving;
          recv_stats =
              Dict.put id (record { seconds = now - load.started; num_bytes = load.num_bytes })
                f.recv_stats;
        };
      }

  abbrev pub end_poll : ℕ → ℕ → Thread A H × Load H × List H → Thread A H
  end_poll now id (t, load, []) = record t { worker = report_load t.worker now id load }
  end_poll now id (t, load, handle ∷ pending) =
      keep_load id (t, record load { handles = handle ∷ pending })

  -- The loop of _poll over the loads there are when it starts.
  unfoldable pub poll : Thread A H → ℕ → List (ℕ × Load H) → Thread A H
  poll t now [] = t
  poll t now ((id, load) ∷ loads) =
      poll (end_poll now id (check_handles t load load.handles [])) now loads
