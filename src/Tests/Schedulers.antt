-- ===== src/Tests/Schedulers.antt =====
-- A scheduler with one request.
use lean_vllm.Prelude.{
  String, ◌+◌, ◌≡◌, ◌⊎◌, inl, refl, Option, none, some, true, false, [], ◌∷◌, arith,
}
use lean_vllm.Prelude.Int.{pos}
use lean_vllm.Prelude.Dict
use lean_vllm.Prelude.Names
use lean_vllm.BlockManager
use lean_vllm.BlockManager.Valid.{create-IsValid}
use lean_vllm.Policy.{SchedulingPolicy, Entry, entry_of}
use lean_vllm.Policy
use lean_vllm.Policy.Members.{times}
use lean_vllm.Scheduler.State.{Scheduler, new_output, add, abort}
use lean_vllm.Scheduler.Moves.{Step, preempt}
use lean_vllm.Scheduler.Steps.{make_room, serve_running, schedule}
use lean_vllm.Scheduler.Sound.{IsIdle, requeued}
use lean_vllm.Scheduler.Steady.{active, waits, nobody, only, IsSteady}
use lean_vllm.Scheduler.Preempt.{Preempted, preempt-Preempted}
use lean_vllm.Scheduler.Room.{Room, make_room-Room}
use lean_vllm.Scheduler.Serving.{serve_running-Served}
use lean_vllm.Scheduler.Rows.{Served}
use lean_vllm.Scheduler.Rounds.{IsReady, Scheduled, schedule-Scheduled}
use lean_vllm.Scheduler.Updates.{settle}
use lean_vllm.Scheduler.Departure.{settle_lem}
use lean_vllm.Scheduler.Requests.{added-IsReady, taken, IsGone, add_lem, abort_lem}
use lean_vllm.Tests.Requests.{pairs, five, five-IsHashed}

abbrev pub start : Scheduler
start = record {
  config = record {
    max_num_seqs = 2;
    max_num_batched_tokens = 8;
    eos = some 9;
    enable_chunked_prefill = true;
    long_prefill_token_threshold = 4;
    num_speculative_tokens = 0;
    policy = SchedulingPolicy.fcfs;
  };
  store = [];
  block_manager = BlockManager.create 4 pairs false;
  waiting = [];
  running = [];
  seqs = [];
  connector = none;
  recving = [];
  sending = [];
}

start-IsReady : IsReady start
unfolding BlockManager.create
start-IsReady = record {
  positive = omega arith;
  blocks = create-IsValid 4 pairs false;
  distinct = λ id. omega arith;
  known = λ id h. absurd (omega arith);
  idle = λ id s h g. absurd (omega arith);
}

five-IsIdle : IsIdle five
five-IsIdle = (refl, refl, refl)

abbrev pub one_request : Scheduler
one_request = record start {
  store = (7, five) ∷ [];
  waiting = record { seq_id = 7; arrival_time = 30; priority = pos 0 } ∷ [];
  seqs = ("req-7", 7) ∷ [];
}

one_request-IsReady : IsReady one_request
unfolding Names.get Dict.get Dict.put Names.put Policy.add entry_of BlockManager.create
one_request-IsReady = added-IsReady start five start-IsReady five-IsHashed five-IsIdle refl refl

add_example :
    ((taken start "req-7" ≡ true) × (add start five ≡ none))
    ⊎ ((taken start "req-7" ≡ false)
        × ((σ' : Scheduler) × (add start five ≡ some σ')
            × IsReady σ'
            × (Names.get "req-7" σ'.seqs ≡ some 7)
            × (Dict.get 7 σ'.store ≡ some five)
            × (times 7 σ'.waiting ≡ 1)))
unfolding Dict.get BlockManager.create
add_example = add_lem start five start-IsReady five-IsHashed five-IsIdle refl

abort_example :
    (σ' : Scheduler) × (abort one_request 50 "req-7" "abort" ≡ some (σ', true))
    × IsReady σ'
    × IsGone σ' 7 "req-7" "abort"
unfolding Dict.get Dict.put Names.get Names.put Policy.add entry_of
abort_example =
    abort_lem one_request 50 7 five "req-7" "abort" one_request-IsReady refl refl refl
      (inl (refl, ground arith)) refl

schedule_example : Scheduled one_request (schedule one_request 50)
schedule_example = schedule-Scheduled one_request 50 refl one_request-IsReady

-- The request was taken from the waiting queue.
abbrev taken_out : Step
taken_out = record {
  scheduler = record one_request { waiting = [] };
  still_running = [];
  budget = 8;
  output = new_output [];
}

abbrev entry : Entry
entry = record { seq_id = 7; arrival_time = 30; priority = pos 0 }

steady : IsSteady taken_out (only entry)
steady =
    requeued _ _ (waits taken_out) (active taken_out (only entry)) one_request-IsReady
      (λ id. omega arith) (λ id s h g. absurd (omega arith))

make_room_example : Room taken_out entry 0 (make_room 1 50 taken_out entry 0)
make_room_example = make_room-Room 1 50 taken_out entry 0 (omega arith) steady

preempt_example : Preempted taken_out entry nobody (preempt taken_out entry)
preempt_example = preempt-Preempted taken_out entry nobody (
    requeued _ _ (waits taken_out) (active taken_out (λ id. only entry id + nobody id)) steady
      (λ id. omega arith) (λ id s h g. absurd (omega arith)))

-- The request runs.
abbrev runs : Step
runs = record taken_out { scheduler = record one_request { waiting = []; running = entry ∷ [] } }

serve_running_example :
    (r : Served runs (serve_running 2 50 runs)) × (r.step.scheduler.running ≡ [])
serve_running_example = serve_running-Served 2 50 runs (omega arith) (
    requeued _ _ (waits runs) (active runs nobody) steady (λ id. omega arith)
      (λ id s h g. absurd (omega arith)))

-- The running request ends.
abbrev busy : Scheduler
busy = record one_request { waiting = []; running = entry ∷ [] }

busy-IsReady : IsReady busy
busy-IsReady =
    requeued _ _ (λ id. times id busy.waiting) (λ id. times id busy.running) one_request-IsReady
      (λ id. omega arith) (λ id s h g. absurd (omega arith))

abbrev stop_reason : Option String
stop_reason = some "stop"

settle_example :
    (σ' : Scheduler) × (settle busy 60 7 five stop_reason ≡ some σ')
    × IsReady σ'
    × (((stop_reason ≡ none) × (Dict.get 7 σ'.store ≡ some five) × (σ'.running ≡ busy.running))
        ⊎ ((why : String) × (stop_reason ≡ some why) × IsGone σ' 7 "req-7" why))
unfolding Dict.get BlockManager.create
settle_example =
    settle_lem busy 60 7 five five busy-IsReady refl refl (ground arith) five-IsHashed refl refl
      stop_reason
