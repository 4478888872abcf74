-- ===== src/KvTransfer/Consumer.antt =====
-- The consuming half of NixlConnectorWorker (lean_vllm/kv_transfer/nixl_connector.py): the reads of a
-- request, one for each producer rank that holds heads it needs, and their ends. NIXL's agent, the
-- socket of the handshake and the clock are parameters; an exception within _start is caught there,
-- so that a fault is a value with what was done before it.
pub mod Loading
pub mod Untouched
use lean_vllm.Prelude.{
  ℕ, ◌+◌, ◌-◌, ◌*◌, ◌%◌, String, str_eq, Bool, true, false, not, ◌&&◌, Option, none, some, List, [],
  ◌∷◌, ◌++◌, ◌==◌, leb, if◌then◌else◌, length,
}
use lean_vllm.Prelude.Dict
use lean_vllm.KvTransfer.{KvConnectorOutput, KvTransferStats}
use lean_vllm.KvTransfer.Nixl.{ReqToRecv}
use lean_vllm.KvTransfer.Heads.{Share, head_shares}
use lean_vllm.KvTransfer.Worker.{Worker, Load, Region, RemoteRank}

-- A row of a descriptor list: address, length, device.
pub record Desc : Type 0 where
  pub address : ℕ
  pub num_bytes : ℕ
  pub device : ℕ

abbrev pub uint64 : ℕ → ℕ
uint64 n = n % 18446744073709551616

-- The rows of one region; numpy's sums and products of uint64 wrap around.
unfoldable pub region_rows : ℕ → ℕ → ℕ → ℕ → List ℕ → List Desc
region_rows start num_bytes block_bytes device [] = []
region_rows start num_bytes block_bytes device (block ∷ blocks) =
    record {
      address = uint64 (start + uint64 (block * block_bytes));
      num_bytes = num_bytes;
      device = device;
    }
    ∷ region_rows start num_bytes block_bytes device blocks

-- block_descs
unfoldable pub block_descs : List Region → List ℕ → ℕ → ℕ → Bool → ℕ → List Desc
block_descs [] block_ids first_head num_heads latents device = []
block_descs (r ∷ regions) block_ids first_head num_heads latents device =
    let rest = block_descs regions block_ids first_head num_heads latents device in
    if not (r.head_bytes == 0)
    then region_rows (r.addr + first_head * r.head_bytes) (num_heads * r.head_bytes) r.block_bytes
        device block_ids
      ++ rest
    else if latents
    then region_rows r.addr r.block_bytes r.block_bytes device block_ids ++ rest
    else rest

-- The answer to a handshake that was read and decoded.
pub record HandshakeReply : Type 0 where
  pub ok : Bool
  pub engine_id : String
  pub tp_size : ℕ
  pub same_layout : Bool
  pub metadata : List ℕ
  pub regions : List Region
  pub num_blocks : ℕ
  pub mem_type : String
  pub device_id : ℕ

-- A READ as it is posted, with its notification: the request's id there and the number of readers.
pub record Read : Type 0 where
  pub local_rows : List Desc
  pub remote_rows : List Desc
  pub mem_type : String
  pub remote_mem_type : String
  pub agent_name : String
  pub notification : String × ℕ

-- initialize_xfer raises, or gives a handle, whose transfer is refused ("ERR" or an exception) or
-- starts.
pub data Posted (H : Type 0) : Type 0 where
  raised : Posted H
  refused started : H → Posted H

-- What check_xfer_state says; an exception is `broken`, as any state but PROC and DONE is.
pub data XferState : Type 0 where
  proc done broken : XferState

-- The agent, its peers and the sockets, of type A; a handle is of type H.
pub record Agent (A : Type 0) (H : Type 0) : Type 0 where
  pub handshake : A → String → ℕ → A × Option HandshakeReply
  pub add_remote_agent : A → List ℕ → A × Option String
  pub remove_remote_agent : A → String → A
  pub send_notif : A → String → String × ℕ → A × Bool
  pub post : A → Read → A × Posted H
  pub check_xfer_state : A → H → A × XferState
  pub release_xfer_handle : A → H → A

-- `_remotes` by address.
unfoldable pub remote_at : String → ℕ → List ((String × ℕ) × RemoteRank) → Option RemoteRank
remote_at host port [] = none
remote_at host port ((key, r) ∷ remotes) =
    if str_eq key.0 host && key.1 == port then some r else remote_at host port remotes

unfoldable pub without_remote :
    String → ℕ → List ((String × ℕ) × RemoteRank) → List ((String × ℕ) × RemoteRank)
without_remote host port [] = []
without_remote host port ((key, r) ∷ remotes) =
    let rest = without_remote host port remotes in
    if str_eq key.0 host && key.1 == port then rest else (key, r) ∷ rest

-- `max(block_ids, default=-1) >= num_blocks`
unfoldable pub some_past : ℕ → List ℕ → Bool
some_past num_blocks [] = false
some_past num_blocks (b ∷ block_ids) =
    let rest = some_past num_blocks block_ids in if leb num_blocks b then true else rest

unfoldable pub sum_bytes : List Desc → ℕ
sum_bytes [] = 0
sum_bytes (d ∷ descs) = d.num_bytes + sum_bytes descs

unfoldable pub ranks_of : List Share → List ℕ
ranks_of [] = []
ranks_of (s ∷ shares) = s.remote_rank ∷ ranks_of shares

-- The agent and the worker, which the transfer thread has.
pub record Thread (A : Type 0) (H : Type 0) : Type 0 where
  pub agent : A
  pub worker : Worker H

-- What a part of _start ends with: an exception, or what it gives.
pub data Fallible (X : Type 0) : Type 0 where
  fault : Fallible X
  gives : X → Fallible X

module _ {A : Type 0} {H : Type 0} (nixl : Agent A H) (lcm : ℕ → ℕ → ℕ) where
  -- _heads
  unfoldable pub heads : Worker H → ReqToRecv → ℕ
  heads w req = if w.num_heads == 0 then lcm w.tp_size req.remote_tp_size else w.num_heads

  abbrev pub keeps : ReqToRecv → RemoteRank → Bool
  keeps req r = str_eq r.engine_id req.remote_engine_id

  abbrev pub remember :
      Thread A H
      → ReqToRecv
      → ℕ
      → HandshakeReply
      → A × Option String
      → Thread A H × Fallible RemoteRank
  remember t req port reply (a, none) = (record t { agent = a }, fault)
  remember t req port reply (a, some agent_name) =
      let r : RemoteRank = record {
        engine_id = reply.engine_id;
        agent_name = agent_name;
        regions = reply.regions;
        num_blocks = reply.num_blocks;
        mem_type = reply.mem_type;
        device_id = reply.device_id;
      } in
      let w = t.worker in
      (
        record {
          agent = a;
          worker = record w { remotes = ((req.remote_host, port), r) ∷ w.remotes };
        },
        gives r,
      )

  -- The checks of an answer: its engine, its tensor-parallel size and its layout must match.
  abbrev pub accept :
      Thread A H → ReqToRecv → ℕ → A × Option HandshakeReply → Thread A H × Fallible RemoteRank
  accept t req port (a, none) = (record t { agent = a }, fault)
  accept t req port (a, some reply) =
      if reply.ok
        && str_eq reply.engine_id req.remote_engine_id
        && reply.tp_size == req.remote_tp_size
        && reply.same_layout
      then remember t req port reply (nixl.add_remote_agent a reply.metadata)
      else (record t { agent = a }, fault)

  abbrev pub ask : Thread A H → ReqToRecv → ℕ → Thread A H × Fallible RemoteRank
  ask t req port = accept t req port (nixl.handshake t.agent req.remote_host port)

  -- A producer that restarted since is asked afresh.
  abbrev pub known_or_ask :
      Thread A H → ReqToRecv → ℕ → Option RemoteRank → Thread A H × Fallible RemoteRank
  known_or_ask t req port none = ask t req port
  known_or_ask t req port (some r) =
      let w = t.worker in
      if keeps req r
      then (t, gives r)
      else ask
          (record {
            agent = nixl.remove_remote_agent t.agent r.agent_name;
            worker = record w { remotes = without_remote req.remote_host port w.remotes };
          })
          req port

  -- _handshake
  unfoldable pub handshake : Thread A H → ReqToRecv → ℕ → Thread A H × Fallible RemoteRank
  handshake t req remote_rank =
      let port = req.remote_port + remote_rank in
      known_or_ask t req port (remote_at req.remote_host port t.worker.remotes)
