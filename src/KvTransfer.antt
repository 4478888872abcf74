-- ===== src/KvTransfer.antt =====
-- KVOutputAggregator of lean_vllm/kv_transfer/base.py, which gathers what the ranks report of their
-- transfers. A request id is a number, a time a number of ticks; a set and a Counter are lists.
pub mod Reports
pub mod Nixl
pub mod Handover
pub mod Heads
pub mod Worker
pub mod Dues
pub mod Holding
pub mod Deadlines
pub mod Consumer
use lean_vllm.Prelude.{
  ℕ, ◌+◌, max, Bool, true, false, Option, none, some, List, [], ◌∷◌, ◌++◌, ◌==◌, if◌then◌else◌,
}
use lean_vllm.Prelude.Counting.{contains}
use lean_vllm.Prelude.Dict

pub record KvTransferStats : Type 0 where
  pub seconds : ℕ
  pub num_bytes : ℕ

unfoldable pub merge : KvTransferStats → KvTransferStats → KvTransferStats
merge a b = record { seconds = max a.seconds b.seconds; num_bytes = a.num_bytes + b.num_bytes }

pub record KvConnectorOutput : Type 0 where
  pub finished_sending : List ℕ
  pub finished_recving : List ℕ
  pub failed_recving : List ℕ
  pub expired_sending : List ℕ
  pub recv_stats : List (ℕ × KvTransferStats)

pub record KvOutputAggregator : Type 0 where
  pub world_size : ℕ
  pub sent : List (ℕ × ℕ)
  pub recved : List (ℕ × ℕ)
  pub failed : List ℕ
  pub expired : List ℕ
  pub stats : List (ℕ × KvTransferStats)

-- A missing key of a Counter counts 0.
unfoldable pub tally : ℕ → List (ℕ × ℕ) → ℕ
tally id counts = elim (Dict.get id counts) [ none ↦ 0 | some n ↦ n ]

-- One more report of a request: the counters, and whether every rank has now reported it.
unfoldable pub report : ℕ → ℕ → List (ℕ × ℕ) → List (ℕ × ℕ) × Bool
report world_size id counts =
    if tally id counts + 1 == world_size
    then (Dict.without id counts, true)
    else (Dict.put id (tally id counts + 1) counts, false)

unfoldable pub union : List ℕ → List ℕ → List ℕ
union [] ys = ys
union (x ∷ xs) ys = Dict.add x (union xs ys)

unfoldable pub gather_stats :
    List (ℕ × KvTransferStats) → List (ℕ × KvTransferStats) → List (ℕ × KvTransferStats)
gather_stats [] seen = seen
gather_stats ((id, stats) ∷ rest) seen =
    gather_stats rest
      (Dict.put id (elim (Dict.get id seen) [ none ↦ stats | some old ↦ merge old stats ]) seen)

-- The loop over an output's finished_sending.
unfoldable pub gather_sent :
    List ℕ → KvOutputAggregator → KvConnectorOutput → KvOutputAggregator × KvConnectorOutput
gather_sent [] a result = (a, result)
gather_sent (id ∷ ids) a result =
    let reported = report a.world_size id a.sent in
    let a' = record a { sent = reported.0 } in
    let sent = record result { finished_sending = Dict.add id result.finished_sending } in
    if reported.1
    then (if contains id a.expired
        then gather_sent ids (record a' { expired = Dict.discard id a.expired })
            (record sent { expired_sending = Dict.add id result.expired_sending })
        else gather_sent ids a' sent)
    else gather_sent ids a' result

-- The result with one load that every rank has reported.
unfoldable pub loaded : ℕ → Bool → Option KvTransferStats → KvConnectorOutput → KvConnectorOutput
loaded id true stats result = record result { failed_recving = Dict.add id result.failed_recving }
loaded id false none result = record result {
  finished_recving = Dict.add id result.finished_recving;
}
loaded id false (some stats) result = record result {
  finished_recving = Dict.add id result.finished_recving;
  recv_stats = Dict.put id stats result.recv_stats;
}

-- The loop over an output's finished and failed loads.
unfoldable pub gather_recved :
    List ℕ → KvOutputAggregator → KvConnectorOutput → KvOutputAggregator × KvConnectorOutput
gather_recved [] a result = (a, result)
gather_recved (id ∷ ids) a result =
    let reported = report a.world_size id a.recved in
    if reported.1
    then gather_recved ids
        (record a {
          recved = reported.0;
          failed = Dict.discard id a.failed;
          stats = Dict.without id a.stats;
        })
        (loaded id (contains id a.failed) (Dict.get id a.stats) result)
    else gather_recved ids (record a { recved = reported.0 }) result

-- The loop of aggregate, over the outputs of the ranks.
unfoldable pub gather :
    List KvConnectorOutput
    → KvOutputAggregator
    → KvConnectorOutput
    → KvOutputAggregator × KvConnectorOutput
gather [] a result = (a, result)
gather (output ∷ outputs) a result =
    let a1 = record a {
      failed = union output.failed_recving a.failed;
      expired = union output.expired_sending a.expired;
      stats = gather_stats output.recv_stats a.stats;
    } in
    let sent = gather_sent output.finished_sending a1 result in
    let recved =
      gather_recved (union output.finished_recving output.failed_recving) sent.0 sent.1 in
    gather outputs recved.0 recved.1

abbrev pub nothing : KvConnectorOutput
nothing = record {
  finished_sending = [];
  finished_recving = [];
  failed_recving = [];
  expired_sending = [];
  recv_stats = [];
}

unfoldable pub aggregate :
    KvOutputAggregator → List KvConnectorOutput → KvOutputAggregator × KvConnectorOutput
aggregate a outputs = gather outputs a nothing
