-- ===== src/Tests/Handovers.antt =====
-- A prompt of five tokens in blocks of two, computed by one instance for another.
use lean_vllm.Prelude.{◌≡◌, refl, true, false, none, some, [], ◌∷◌, arith, length, drop}
use lean_vllm.Prelude.Names
use lean_vllm.Sequence.{Sequence}
use lean_vllm.KvTransfer.Nixl.{
  NixlConnectorScheduler, cdiv, wants_decode, hands_over, get_num_new_matched_tokens,
  update_state_after_alloc, request_finished, clear_prefill,
}
use lean_vllm.KvTransfer.Handover.{handed_over, handover}
use lean_vllm.Tests.Requests.{five, sampling}

abbrev prefiller : NixlConnectorScheduler
prefiller = record {
  engine_id = "prefill";
  kv_ip = "10.0.0.1";
  kv_port = 5600;
  block_size = 2;
  tp_size = 1;
  reqs_to_recv = [];
  reqs_to_send = [];
}

abbrev decoder : NixlConnectorScheduler
decoder = record prefiller { engine_id = "decode"; kv_ip = "10.0.0.2" }

abbrev prefilled : Sequence
prefilled = record five {
  block_table = 0 ∷ 1 ∷ 2 ∷ [];
  finish_reason = some "length";
  params = record sampling {
    kv_transfer_params =
        some (record { do_remote_prefill = false; do_remote_decode = true; remote = none });
  };
}

abbrev pulling : Sequence
pulling = record five {
  block_table = 4 ∷ 5 ∷ 6 ∷ [];
  num_cached_tokens = 2;
  params = record sampling { kv_transfer_params = some (handed_over prefiller prefilled) };
}

handover_example :
    (request_finished prefiller prefilled ≡ (
      (true, some (handed_over prefiller prefilled)),
      record prefiller { reqs_to_send = Names.put "req-7" (0 ∷ 1 ∷ 2 ∷ []) [] },
    ))
    × (get_num_new_matched_tokens decoder pulling 2 ≡ some ((3, true), pulling))
    × ((c2 : NixlConnectorScheduler) × (update_state_after_alloc decoder pulling
          ≡ some (c2, clear_prefill pulling))
        × (Names.get "req-7" c2.reqs_to_recv
            ≡ some (record {
              local_block_ids = 5 ∷ 6 ∷ [];
              remote_block_ids = 1 ∷ 2 ∷ [];
              remote_request_id = "req-7";
              remote_engine_id = "prefill";
              remote_host = "10.0.0.1";
              remote_port = 5600;
              remote_tp_size = 1;
            })))
    × (length (drop 1 pulling.block_table) ≡ length (drop 1 prefilled.block_table))
unfolding cdiv wants_decode hands_over
handover_example =
    handover prefiller decoder prefilled pulling refl refl (omega arith) refl refl refl refl
      (omega arith)
