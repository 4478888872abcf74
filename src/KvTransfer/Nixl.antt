-- ===== src/KvTransfer/Nixl.antt =====
-- NixlConnectorScheduler of lean_vllm/kv_transfer/nixl_connector.py: what the engine's half of the
-- connector loads and hands over. `none` is the KeyError of parameters that name no remote prefill.
use lean_vllm.Prelude.{
  ℕ, ◌+◌, ◌-◌, ◌/◌, String, str_eq, Bool, true, false, not, ◌&&◌, ◌||◌, Option, none, some, List,
  [], ◌==◌, leb, if◌then◌else◌, length, take, drop, assert, ◌>>=◌, ◌>>◌,
}
use lean_vllm.Prelude.Names
use lean_vllm.Sequence.{Sequence, KvTransferParams, Remote}

unfoldable pub cdiv : ℕ → ℕ → ℕ
cdiv a b = (a + b - 1) / b

pub record ReqToRecv : Type 0 where
  pub local_block_ids : List ℕ
  pub remote_block_ids : List ℕ
  pub remote_request_id : String
  pub remote_engine_id : String
  pub remote_host : String
  pub remote_port : ℕ
  pub remote_tp_size : ℕ

pub record KvConnectorMetadata : Type 0 where
  pub reqs_to_recv : List (String × ReqToRecv)
  pub reqs_to_send : List (String × List ℕ)

-- The fields of kv_transfer that the connector reads stand beside its own.
pub record NixlConnectorScheduler : Type 0 where
  pub engine_id : String
  pub kv_ip : String
  pub kv_port : ℕ
  pub block_size : ℕ
  pub tp_size : ℕ
  pub reqs_to_recv : List (String × ReqToRecv)
  pub reqs_to_send : List (String × List ℕ)

abbrev pub prefill_flag : Option KvTransferParams → Bool
prefill_flag none = false
prefill_flag (some p) = p.do_remote_prefill

abbrev pub decode_flag : Option KvTransferParams → Bool
decode_flag none = false
decode_flag (some p) = p.do_remote_decode

abbrev pub remote_in : Option KvTransferParams → Option Remote
remote_in none = none
remote_in (some p) = p.remote

-- `params and params.get("do_remote_prefill")`, and the same for do_remote_decode.
unfoldable pub wants_prefill : Sequence → Bool
wants_prefill s = prefill_flag s.kv_transfer_params

unfoldable pub wants_decode : Sequence → Bool
wants_decode s = decode_flag s.kv_transfer_params

abbrev pub unflagged : Option KvTransferParams → Option KvTransferParams
unflagged none = none
unflagged (some p) = some (record p { do_remote_prefill = false })

-- `params["do_remote_prefill"] = False`
unfoldable pub clear_prefill : Sequence → Sequence
clear_prefill s = record s {
  params = record s.params { kv_transfer_params = unflagged s.kv_transfer_params };
}

-- `params[...]` of the remote prefill.
unfoldable pub remote_of : Sequence → Option Remote
remote_of s = remote_in s.kv_transfer_params

-- The tokens to load, whether asynchronously, and the sequence with its flag. A count of cached
-- tokens past the prompt is a fault here; the source would go on with a negative number.
unfoldable pub get_num_new_matched_tokens :
    NixlConnectorScheduler → Sequence → ℕ → Option ((ℕ × Bool) × Sequence)
get_num_new_matched_tokens c s num_computed_tokens =
    if not (wants_prefill s) then some ((0, false), s) else do
      remote ← remote_of s
      if not (length remote.remote_block_ids == cdiv s.num_prompt_tokens c.block_size)
          then some ((0, false), clear_prefill s)
          else do
            assert (leb num_computed_tokens s.num_prompt_tokens)
            some ((s.num_prompt_tokens - num_computed_tokens, true), s)

unfoldable pub update_state_after_alloc :
    NixlConnectorScheduler → Sequence → Option (NixlConnectorScheduler × Sequence)
update_state_after_alloc c s = do
  remote ← remote_of s
  let num_local_blocks = s.num_cached_tokens / c.block_size
  some (
    record c {
      reqs_to_recv =
          Names.put s.request_id
            (record {
              local_block_ids = drop num_local_blocks s.block_table;
              remote_block_ids = drop num_local_blocks remote.remote_block_ids;
              remote_request_id = remote.remote_request_id;
              remote_engine_id = remote.remote_engine_id;
              remote_host = remote.remote_host;
              remote_port = remote.remote_port;
              remote_tp_size = remote.tp_size;
            })
            c.reqs_to_recv;
    },
    clear_prefill s,
  )

unfoldable pub build_connector_meta :
    NixlConnectorScheduler → KvConnectorMetadata × NixlConnectorScheduler
build_connector_meta c = (
  record { reqs_to_recv = c.reqs_to_recv; reqs_to_send = c.reqs_to_send },
  record c { reqs_to_recv = []; reqs_to_send = [] },
)

-- A finish by "length" or "stop".
unfoldable pub hands_over : Option String → Bool
hands_over none = false
hands_over (some reason) = str_eq reason "length" || str_eq reason "stop"

-- Whether the blocks are held, and the parameters for the decode instance.
unfoldable pub request_finished :
    NixlConnectorScheduler → Sequence → (Bool × Option KvTransferParams) × NixlConnectorScheduler
request_finished c s =
    if not (wants_decode s && hands_over s.finish_reason)
    then ((false, none), c)
    else (let block_ids = take (cdiv s.num_prompt_tokens c.block_size) s.block_table in
        (
          (
            true,
            some (record {
              do_remote_prefill = true;
              do_remote_decode = false;
              remote = some (record {
                remote_block_ids = block_ids;
                remote_request_id = s.request_id;
                remote_engine_id = c.engine_id;
                remote_host = c.kv_ip;
                remote_port = c.kv_port;
                tp_size = c.tp_size;
              });
            }),
          ),
          record c { reqs_to_send = Names.put s.request_id block_ids c.reqs_to_send },
        ))
