-- ===== src/Tests/Transfers.antt =====
-- Two ranks of which one has reported request 5.
use lean_vllm.Prelude.{◌+◌, ◌≡◌, ◌||◌, [], ◌∷◌, arith, ◌==◌, if◌then◌else◌}
use lean_vllm.Prelude.Counting.{contains}
use lean_vllm.KvTransfer.{KvOutputAggregator, tally, gather_sent, nothing}
use lean_vllm.KvTransfer.Reports.{gather_sent_lem}
use lean_vllm.Prelude.Dict

abbrev waiting : KvOutputAggregator
waiting = record {
  world_size = 2;
  sent = (5, 1) ∷ [];
  recved = [];
  failed = [];
  expired = [];
  stats = [];
}

gather_sent_example :
    (tally 5 (gather_sent (6 ∷ 5 ∷ []) waiting nothing).0.sent
      ≡ (if tally 5 waiting.sent + 1 == 2 then 0 else tally 5 waiting.sent + 1))
    × (contains 5 (gather_sent (6 ∷ 5 ∷ []) waiting nothing).1.finished_sending
        ≡ (contains 5 [] || (tally 5 waiting.sent + 1 == 2)))
unfolding tally Dict.get
gather_sent_example = gather_sent_lem (6 ∷ 5 ∷ []) 5 waiting nothing (omega arith) (omega arith)
