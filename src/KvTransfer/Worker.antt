-- ===== src/KvTransfer/Worker.antt =====
-- NixlConnectorWorker of lean_vllm/kv_transfer/nixl_connector.py: its state, and the half that
-- produces blocks and holds them until they are read. The engine's calls and the transfer thread's
-- take turns under the lock, so that each is a function of the state; a monotonic time is a number.
-- Request ids are numbers, as in KvTransfer. Two parts of a notification, the id and the number of
-- readers, are what its parse gives.
use lean_vllm.Prelude.{
  ℕ, ◌+◌, String, Bool, true, false, not, ◌&&◌, Option, none, some, List, [], ◌∷◌, ◌++◌, ltb, leb,
  if◌then◌else◌,
}
use lean_vllm.Prelude.Dict
use lean_vllm.KvTransfer.{KvConnectorOutput, nothing}
use lean_vllm.KvTransfer.Nixl.{ReqToRecv}

pub record Region : Type 0 where
  pub addr : ℕ
  pub block_bytes : ℕ
  pub head_bytes : ℕ

-- _Remote
pub record RemoteRank : Type 0 where
  pub engine_id : String
  pub agent_name : String
  pub regions : List Region
  pub num_blocks : ℕ
  pub mem_type : String
  pub device_id : ℕ

-- _Load; a handle of NIXL's is of any type.
pub record Load (H : Type 0) : Type 0 where
  pub req : ReqToRecv
  pub handles : List H
  pub unnotified : List ℕ
  pub started : ℕ
  pub num_bytes : ℕ
  pub failed : Bool

-- An entry of _notified: notifications, readers, first seen.
pub record Notified : Type 0 where
  pub num_notifications : ℕ
  pub num_readers : ℕ
  pub seen : ℕ

pub record Worker (H : Type 0) : Type 0 where
  pub rank : ℕ
  pub tp_size : ℕ
  pub num_heads : ℕ
  pub regions : List Region
  pub mem_type : String
  pub device_id : ℕ
  pub timeout : ℕ
  pub reqs_to_send : List (ℕ × ℕ)
  pub notified : List (ℕ × Notified)
  pub finished : KvConnectorOutput
  pub queue : List (ℕ × ReqToRecv)
  pub remotes : List ((String × ℕ) × RemoteRank)
  pub loads : List (ℕ × Load H)

abbrev pub is_held : Option ℕ → Bool
is_held none = false
is_held (some deadline) = true

abbrev pub has_read : Option Notified → Bool
has_read none = false
has_read (some n) = leb n.num_readers n.num_notifications

-- `setdefault(request_id, [0, readers, now])`, then one more notification.
abbrev pub noted : Option Notified → ℕ → ℕ → Notified
noted none num_readers now = record { num_notifications = 1; num_readers = num_readers; seen = now }
noted (some n) num_readers now = record n { num_notifications = n.num_notifications + 1 }

module _ {H : Type 0} where
  abbrev pub holds : Worker H → ℕ → Bool
  holds w id = is_held (Dict.get id w.reqs_to_send)

  -- _release; a request that is not held is passed over.
  unfoldable pub release : Worker H → ℕ → Worker H
  release w id =
      if holds w id
      then record w {
        reqs_to_send = Dict.without id w.reqs_to_send;
        notified = Dict.without id w.notified;
        finished = record w.finished { finished_sending = Dict.add id w.finished.finished_sending };
      }
      else w

  -- _release_if_read
  unfoldable pub release_if_read : Worker H → ℕ → Worker H
  release_if_read w id = if has_read (Dict.get id w.notified) then release w id else w

  -- The loop of start_load_kv over what is to be sent.
  unfoldable pub hold_all : Worker H → ℕ → List ℕ → Worker H
  hold_all w deadline [] = w
  hold_all w deadline (id ∷ ids) =
      hold_all
        (release_if_read (record w { reqs_to_send = Dict.put id deadline w.reqs_to_send }) id)
        deadline ids

  -- start_load_kv; the event that the reads wait for stands beside the queue.
  unfoldable pub start_load_kv : Worker H → ℕ → List ℕ → List (ℕ × ReqToRecv) → Worker H
  start_load_kv w now reqs_to_send reqs_to_recv =
      let w' = hold_all w (now + w.timeout) reqs_to_send in
      record w' { queue = w'.queue ++ reqs_to_recv }

  -- The first loop of get_finished, over the items held when it starts.
  unfoldable pub expire_all : Worker H → ℕ → List (ℕ × ℕ) → Worker H
  expire_all w now [] = w
  expire_all w now ((id, deadline) ∷ items) =
      if ltb deadline now
      then (let w' = release w id in
          expire_all
            (record w' {
              finished = record w'.finished {
                expired_sending = Dict.add id w'.finished.expired_sending;
              };
            })
            now items)
      else expire_all w now items

  -- The second loop of get_finished.
  unfoldable pub forget_all : Worker H → ℕ → List (ℕ × Notified) → Worker H
  forget_all w now [] = w
  forget_all w now ((id, n) ∷ items) =
      if not (holds w id) && ltb (n.seen + w.timeout) now
      then forget_all (record w { notified = Dict.without id w.notified }) now items
      else forget_all w now items

  unfoldable pub get_finished : Worker H → ℕ → KvConnectorOutput × Worker H
  get_finished w now =
      let w1 = expire_all w now w.reqs_to_send in
      let w2 = forget_all w1 now w1.notified in (w2.finished, record w2 { finished = nothing })

  -- The loop of _take_notifications; a message that does not parse is ignored.
  unfoldable pub take_notifications : Worker H → ℕ → List (Option (ℕ × ℕ)) → Worker H
  take_notifications w now [] = w
  take_notifications w now (none ∷ messages) = take_notifications w now messages
  take_notifications w now (some (id, num_readers) ∷ messages) =
      take_notifications
        (release_if_read
          (record w {
            notified = Dict.put id (noted (Dict.get id w.notified) num_readers now) w.notified;
          })
          id)
        now messages
