-- ===== src/DownQueue.antt =====
-- down_parse_client/down_client/down_queue.cpp: the queue of maps from a proxy host to the seed lines
-- to load through it. A `std::map` is an association list with each key once; its order is that of
-- insertion here, and the theorems are about look-ups only.
pub mod Laws
mod Tests
use studytest.Base.{
  ℕ, ◌+◌, List, [], ◌∷◌, ◌++◌, Option, some, none, Bool, Bytes, length, ltb, leb, if◌then◌else◌,
  same,
}

abbrev pub UrlMap : Type 0
UrlMap = List (Bytes × List Bytes)

abbrev pub max_queue_size : ℕ
max_queue_size = 5

abbrev pub lookup : Bytes → UrlMap → Option (List Bytes)
lookup k [] = none
lookup k ((j, v) ∷ m) = if same j k then some v else lookup k m

pub data Added : Type 0 where
  refused : Added
  waits : Added
  added : List UrlMap → Added

-- One look of `addQueue` at the queue. The size of the map is its number of keys, while the queue
-- grows by one.
unfoldable pub add_queue : List UrlMap → UrlMap → Added
add_queue queue [] = refused
add_queue queue (e ∷ es) =
    if ltb max_queue_size (length (e ∷ es) + length queue)
    then waits
    else added (queue ++ (e ∷ es) ∷ [])

-- `data.insert(pair)`, which leaves a key that is there as it is
unfoldable pub insert : UrlMap → Bytes → List Bytes → UrlMap
insert data' k v = elim (lookup k data') [ none ↦ data' ++ (k, v) ∷ [] | some w ↦ data' ]

-- the inner loop of `getQueue`, over one map
unfoldable pub insert_all : UrlMap → UrlMap → UrlMap
insert_all [] data' = data'
insert_all ((k, v) ∷ m) data' = insert_all m (insert data' k v)

-- `while(_queue.size() > 0)`: every map of the queue goes into `data`, and the queue is empty then.
unfoldable pub drain : List UrlMap → UrlMap → UrlMap
drain [] data' = data'
drain (m ∷ queue) data' = drain queue (insert_all m data')

-- The waiting loop: the list holds the queue as each round finds it, and the third round on an empty
-- queue ends the loop. A list that runs out stands for a wait that is going on.
pub wait_queue : ℕ → List (List UrlMap) → Option (List UrlMap)
wait_queue counter [] = none
wait_queue counter ((m ∷ ms) ∷ later) = some (m ∷ ms)
wait_queue counter ([] ∷ later) =
    if leb 3 (counter + 1) then some [] else wait_queue (counter + 1) later

-- `getQueue(data)`: the map handed out, and the queue left. `data` is cleared first.
unfoldable pub get_queue : List (List UrlMap) → Option (UrlMap × List UrlMap)
unfolding wait_queue
get_queue seen = elim (wait_queue 0 seen) [ none ↦ none | some queue ↦ some (drain queue [], []) ]
