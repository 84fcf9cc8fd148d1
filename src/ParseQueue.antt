-- ===== src/ParseQueue.antt =====
-- down_parse_client/parse_client/parse_queue.cpp: the queue of seed lines between the feeding thread
-- and the parsing threads. A locked section is one step; the waits inside it are steps too, since
-- `pthread_cond_timedwait` lets go of the lock.
pub mod Laws
pub mod Threads
mod Tests
use studytest.Base.{
  ℕ, zero, suc, ◌+◌, ◌-◌, List, [], ◌∷◌, ◌++◌, Option, some, none, Bool, true, false, Bytes, length,
  take, drop, ltb, leb, ◌==◌, if◌then◌else◌,
}

abbrev pub max_queue_size : ℕ
max_queue_size = 50

-- One look of `addQueue` at the queue under the lock: it waits while the queue would grow too long.
pub data Added : Type 0 where
  refused : Added
  waits : Added
  added : List Bytes → Added

-- `_queue.splice(_queue.begin(), data)`: the new lines go to the front.
unfoldable pub add_queue : List Bytes → List Bytes → Added
add_queue queue [] = refused
add_queue queue (x ∷ xs) =
    if ltb max_queue_size (length (x ∷ xs) + length queue) then waits else added ((x ∷ xs) ++ queue)

-- What `getQueue` does once it has stopped waiting: `for(int i=1; i<num; i++) iter ++;` leaves the
-- iterator num - 1 places behind the first, and that range is spliced into `data`.
unfoldable pub take_out : ℕ → List Bytes → List Bytes × List Bytes
take_out num queue =
    if leb (length queue) num then (queue, []) else (take (num - 1) queue, drop (num - 1) queue)

-- The waiting loop of `getQueue`: the list holds the queue as each round finds it, and the fourth
-- round on an empty queue ends the loop. A list that runs out stands for a wait that is going on.
pub wait_queue : ℕ → List (List Bytes) → Option (List Bytes)
wait_queue counter [] = none
wait_queue counter ((x ∷ xs) ∷ later) = some (x ∷ xs)
wait_queue counter ([] ∷ later) = if leb 3 counter then some [] else wait_queue (counter + 1) later

pub data Got : Type 0 where
  invalid : Got
  waiting : Got
  got : List Bytes → List Bytes → Got

-- `getQueue(num, data)`: `got data queue` is what it hands out and what it leaves.
unfoldable pub get_queue : ℕ → List (List Bytes) → Got
unfolding take_out wait_queue
get_queue num seen = if leb num 0 then invalid else elim (wait_queue 0 seen) [
  | none ↦ waiting
  | some queue ↦ got (take_out num queue).0 (take_out num queue).1
]
