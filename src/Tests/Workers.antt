-- ===== src/Tests/Workers.antt =====
-- A worker that holds the blocks of one request until its reader has read them.
use lean_vllm.Prelude.{ℕ, ◌+◌, ◌≤◌, refl, some, [], ◌∷◌, ◌++◌, arith}
use lean_vllm.Prelude.Counting.{count}
use lean_vllm.Prelude.Dict
use lean_vllm.KvTransfer.{nothing}
use lean_vllm.KvTransfer.Worker.{Worker, start_load_kv, get_finished, take_notifications}
use lean_vllm.KvTransfer.Dues.{due}
use lean_vllm.KvTransfer.Holding.{Reached, IsCounted, reached_lem}

abbrev fresh_worker : Worker ℕ
fresh_worker = record {
  rank = 0;
  tp_size = 1;
  num_heads = 2;
  regions = [];
  mem_type = "DRAM";
  device_id = 0;
  timeout = 60;
  reqs_to_send = [];
  notified = [];
  finished = nothing;
  queue = [];
  remotes = [];
  loads = [];
}

abbrev holding : Worker ℕ
holding = start_load_kv fresh_worker 5 (7 ∷ []) []

abbrev read_once : Worker ℕ
read_once = take_notifications holding 6 (some (7, 1) ∷ [])

fresh-due : (id : ℕ) → due fresh_worker id + count id (7 ∷ []) ≤ 1
unfolding due Dict.get
fresh-due id = ground arith

reached_example :
    IsCounted
      (get_finished read_once 8).1
      (7 ∷ [])
      ((get_finished read_once 8).0.finished_sending ++ [])
reached_example = reached_lem (
    Reached.reports read_once (7 ∷ []) [] 8 (
      Reached.notes holding (7 ∷ []) [] 6 (some (7, 1) ∷ []) (
        Reached.hands fresh_worker [] [] 5 (7 ∷ []) [] fresh-due
          (Reached.starts fresh_worker refl refl))))
