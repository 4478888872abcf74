-- ===== src/Tests/Replies.antt =====
-- A reply with a stop string that stretches over two outputs.
use lean_vllm.Prelude.{◌≡◌, refl, true, false, some, none, List, [], ◌∷◌}
use lean_vllm.StopChecker
use lean_vllm.StopChecker.{StopChecker, create, push}
use lean_vllm.StopChecker.Emission.{create-IsStreaming}
use lean_vllm.Deltas
use lean_vllm.Deltas.{RequestOutput, deltas, collect}
use lean_vllm.Deltas.Streams.{Streamed, deltas_lem}

abbrev checker : StopChecker
checker = create ((5 ∷ 6 ∷ []) ∷ [])

abbrev outputs : List RequestOutput
outputs =
    record {
      token_ids = 40 ∷ [];
      text = 1 ∷ 2 ∷ 5 ∷ [];
      finished = false;
      finish_reason = none;
      kv_transfer_params = none;
    }
    ∷ record {
      token_ids = 41 ∷ [];
      text = 6 ∷ 7 ∷ [];
      finished = true;
      finish_reason = some "length";
      kv_transfer_params = none;
    }
    ∷ []

deltas_example : Streamed checker [] [] outputs (deltas checker 0 outputs)
deltas_example = deltas_lem outputs checker [] [] 0 (create-IsStreaming ((5 ∷ 6 ∷ []) ∷ []))

sent : collect (deltas checker 0 outputs).0 ≡ 1 ∷ 2 ∷ []
unfolding deltas collect push create Deltas.text_delta StopChecker.scan StopChecker.nonempty
    StopChecker.find_first StopChecker.find StopChecker.starts_with StopChecker.max_length
sent = refl
