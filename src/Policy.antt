-- ===== src/Policy.antt =====
-- The waiting queues of lean_vllm/engine/policy.py. A queued Sequence is an entry with the three
-- numbers that order it; its seq_id stands for the object.
pub mod Order
pub mod Fcfs
pub mod Heap
pub mod Priority
pub mod Members
use lean_vllm.Prelude.{
  ℕ, ◌+◌, String, str_eq, Bool, true, false, not, ◌&&◌, ◌||◌, Option, none, some, List, [], ◌∷◌,
  ◌++◌, ltb, ◌==◌, if◌then◌else◌, get_last?,
}
use lean_vllm.Prelude.Int.{ℤ, ltb_ℤ}
use lean_vllm.Sequence.{Sequence}

pub record Entry : Type 0 where
  pub priority : ℤ
  pub arrival_time : ℕ
  pub seq_id : ℕ

-- Priority._key
unfoldable pub entry_of : Sequence → Entry
entry_of s = record { priority = s.priority; arrival_time = s.arrival_time; seq_id = s.seq_id }

pub data SchedulingPolicy : Type 0 where
  fcfs priority : SchedulingPolicy

-- SchedulingPolicy.create; an unknown name is the ValueError.
unfoldable pub create : String → Option SchedulingPolicy
create name =
    if str_eq name "fcfs" then some fcfs else if str_eq name "priority" then some priority else none

-- The order of the heap's tuples: priority, then arrival, then seq_id.
unfoldable pub key_lt : Entry → Entry → Bool
key_lt a b =
    ltb_ℤ a.priority b.priority
    || (not (ltb_ℤ b.priority a.priority)
        && (ltb a.arrival_time b.arrival_time
            || (a.arrival_time == b.arrival_time && ltb a.seq_id b.seq_id)))

-- The order of Priority._urgency.
unfoldable pub urgency_lt : Entry → Entry → Bool
urgency_lt a b =
    ltb_ℤ a.priority b.priority
    || (not (ltb_ℤ b.priority a.priority) && ltb a.arrival_time b.arrival_time)

-- heapq gives out its least tuple first, so the heap is the ordered list of what it holds.
unfoldable pub heappush : Entry → List Entry → List Entry
heappush e [] = e ∷ []
heappush e (x ∷ xs) = let rest = heappush e xs in if key_lt e x then e ∷ x ∷ xs else x ∷ rest

unfoldable pub add : SchedulingPolicy → Entry → List Entry → List Entry
add fcfs e q = q ++ e ∷ []
add priority e q = heappush e q

unfoldable pub requeue : SchedulingPolicy → Entry → List Entry → List Entry
requeue fcfs e q = e ∷ q
requeue priority e q = heappush e q

unfoldable pub peek : List Entry → Option Entry
peek [] = none
peek (e ∷ q) = some e

unfoldable pub pop : List Entry → Option (Entry × List Entry)
pop [] = none
pop (e ∷ q) = some (e, q)

abbrev pub prepend : Entry → Option (List Entry) → Option (List Entry)
prepend x none = none
prepend x (some xs) = some (x ∷ xs)

-- The removal of a sequence from a deque or the heap; `none` is the ValueError of a missing one.
unfoldable pub remove : ℕ → List Entry → Option (List Entry)
remove id [] = none
remove id (x ∷ xs) = let rest = remove id xs in if x.seq_id == id then some xs else prepend x rest

-- Python's `max(…, key=…)`: the first of the greatest.
unfoldable pub max_from : Entry → List Entry → Entry
max_from best [] = best
max_from best (x ∷ xs) = max_from (if urgency_lt best x then x else best) xs

unfoldable pub victim : SchedulingPolicy → List Entry → Option Entry
victim fcfs running = get_last? running
victim priority [] = none
victim priority (x ∷ xs) = some (max_from x xs)

-- Python's `sorted`, which is stable.
unfoldable pub insert_urgent : Entry → List Entry → List Entry
insert_urgent e [] = e ∷ []
insert_urgent e (x ∷ xs) =
    let rest = insert_urgent e xs in if urgency_lt x e then x ∷ rest else e ∷ x ∷ xs

unfoldable pub sort_urgent : List Entry → List Entry
sort_urgent [] = []
sort_urgent (x ∷ xs) = insert_urgent x (sort_urgent xs)

unfoldable pub by_urgency : SchedulingPolicy → List Entry → List Entry
by_urgency fcfs running = running
by_urgency priority running = sort_urgent running
