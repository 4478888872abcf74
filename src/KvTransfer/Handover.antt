-- ===== src/KvTransfer/Handover.antt =====
-- A prompt that one instance computed and another decodes: what the first hands over is what the
-- second asks for.
use lean_vllm.Prelude.{
  ℕ, ◌-◌, ◌/◌, ◌≤◌, ◌≡◌, ap, ◌∙◌, str_eq_iff, true, false, some, List, arith, ◌==◌, leb, length,
  take, drop, length-take, length-drop,
}
use lean_vllm.Prelude.Names
use lean_vllm.Sequence.{Sequence, KvTransferParams}
use lean_vllm.KvTransfer.Nixl.{
  NixlConnectorScheduler, ReqToRecv, cdiv, prefill_flag, remote_in, wants_prefill, wants_decode,
  hands_over, remote_of, get_num_new_matched_tokens, update_state_after_alloc, request_finished,
  clear_prefill,
}

-- The block table of the prompt, as the prefill instance holds it.
abbrev pub prompt_blocks : NixlConnectorScheduler → Sequence → List ℕ
prompt_blocks c s = take (cdiv s.num_prompt_tokens c.block_size) s.block_table

abbrev pub handed_over : NixlConnectorScheduler → Sequence → KvTransferParams
handed_over c s = record {
  do_remote_prefill = true;
  do_remote_decode = false;
  remote = some (record {
    remote_block_ids = prompt_blocks c s;
    remote_request_id = s.request_id;
    remote_engine_id = c.engine_id;
    remote_host = c.kv_ip;
    remote_port = c.kv_port;
    tp_size = c.tp_size;
  });
}

-- The prefill instance `c` finishes `s`; the decode instance `c'` has `s'` for the same prompt.
module _ (c c' : NixlConnectorScheduler) (s s' : Sequence) (asked : wants_decode s ≡ true)
    (complete : hands_over s.finish_reason ≡ true)
    (covered : cdiv s.num_prompt_tokens c.block_size ≤ length s.block_table)
    (same_size : c'.block_size ≡ c.block_size)
    (same_prompt : s'.num_prompt_tokens ≡ s.num_prompt_tokens)
    (given : s'.params.kv_transfer_params ≡ some (handed_over c s))
    (allocated : length s'.block_table ≡ cdiv s'.num_prompt_tokens c'.block_size)
    (cached : s'.num_cached_tokens ≤ s'.num_prompt_tokens) where
  all_blocks : length (prompt_blocks c s) ≡ cdiv s'.num_prompt_tokens c'.block_size
  all_blocks =
      let blocks : cdiv s'.num_prompt_tokens c'.block_size ≡ cdiv s.num_prompt_tokens c.block_size =
        ap (λ n. cdiv n c'.block_size) same_prompt ∙ ap (cdiv s.num_prompt_tokens) same_size in
      omega
        (arith, blocks, covered, length-take (cdiv s.num_prompt_tokens c.block_size) s.block_table)

  counts : length (prompt_blocks c s) == cdiv s'.num_prompt_tokens c'.block_size ≡ true
  counts = ground (arith, all_blocks)

  fits : leb s'.num_cached_tokens s'.num_prompt_tokens ≡ true
  fits = ground (arith, cached)

  wants : wants_prefill s' ≡ true
  unfolding wants_prefill
  wants = ap prefill_flag given

  source : remote_of s' ≡ (handed_over c s).remote
  unfolding remote_of
  source = ap remote_in given

  abbrev read_request : ReqToRecv
  read_request = record {
    local_block_ids = drop (s'.num_cached_tokens / c'.block_size) s'.block_table;
    remote_block_ids = drop (s'.num_cached_tokens / c'.block_size) (prompt_blocks c s);
    remote_request_id = s.request_id;
    remote_engine_id = c.engine_id;
    remote_host = c.kv_ip;
    remote_port = c.kv_port;
    remote_tp_size = c.tp_size;
  }

  -- A request that asked for a remote decode finishes by its length or a stop with its prompt's
  -- blocks in its table, and another instance of the same block size gets the same prompt with the
  -- parameters that this gives, and blocks for the prompt. The first holds the blocks and will send
  -- them; the second loads all prompt tokens that it has not cached, and its read request names as
  -- many local blocks as remote ones, each remote one the first instance's block of that place.
  pub handover :
      (request_finished c s ≡ (
        (true, some (handed_over c s)),
        record c { reqs_to_send = Names.put s.request_id (prompt_blocks c s) c.reqs_to_send },
      ))
      × (get_num_new_matched_tokens c' s' s'.num_cached_tokens
          ≡ some ((s'.num_prompt_tokens - s'.num_cached_tokens, true), s'))
      × ((c2 : NixlConnectorScheduler) × (update_state_after_alloc c' s'
            ≡ some (c2, clear_prefill s'))
          × (Names.get s'.request_id c2.reqs_to_recv ≡ some read_request))
      × (length read_request.local_block_ids ≡ length read_request.remote_block_ids)
  unfolding request_finished get_num_new_matched_tokens update_state_after_alloc
  handover = (
    simp (asked, complete),
    simp (wants, source, counts, fits),
    (
      record c' { reqs_to_recv = Names.put s'.request_id read_request c'.reqs_to_recv },
      simp source,
      Names.get-put s'.request_id s'.request_id read_request c'.reqs_to_recv
          ∙ ground (arith, str_eq_iff s'.request_id s'.request_id),
    ),
    omega (
      arith,
      allocated,
      all_blocks,
      length-drop (s'.num_cached_tokens / c'.block_size) s'.block_table,
      length-drop (s'.num_cached_tokens / c'.block_size) (prompt_blocks c s),
    ),
  )
