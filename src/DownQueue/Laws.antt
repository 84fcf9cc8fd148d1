-- ===== src/DownQueue/Laws.antt =====
-- What the download queue takes and what it hands out.
use studytest.Base.{
  ◌+◌, ◌≤◌, ◌≡◌, ◌↔◌, refl, List, [], ◌∷◌, ◌++◌, Option, some, none, arith, Bytes, length,
  if◌then◌else◌, same, same_iff,
}
use studytest.DownQueue.{
  UrlMap, max_queue_size, lookup, added, add_queue, insert, insert_all, drain, get_queue,
}

-- the first of two answers
abbrev pub or_else : Option (List Bytes) → Option (List Bytes) → Option (List Bytes)
or_else none b = b
or_else (some v) b = some v

-- the list under a key in the first map of the queue that has the key
abbrev pub first_with : Bytes → List UrlMap → Option (List Bytes)
first_with k [] = none
first_with k (m ∷ queue) = or_else (lookup k m) (first_with k queue)

or_else_assoc : (a b c : Option (List Bytes)) → or_else (or_else a b) c ≡ or_else a (or_else b c)
or_else_assoc none b c = refl
or_else_assoc (some v) b c = refl

lookup-append :
    (k : Bytes) (m m' : UrlMap) → lookup k (m ++ m') ≡ or_else (lookup k m) (lookup k m')
lookup-append k [] m' = refl
lookup-append k ((j, v) ∷ m) m' = ground (arith, lookup-append k m m')

lookup-insert :
    (k j : Bytes) (v : List Bytes) (m : UrlMap)
    → lookup k (insert m j v) ≡ or_else (lookup k m) (if same j k then some v else none)
unfolding insert
lookup-insert k j v m = ground (arith, lookup-append k m ((j, v) ∷ []), same_iff j k)

lookup-insert_all :
    (k : Bytes) (m m' : UrlMap) → lookup k (insert_all m m') ≡ or_else (lookup k m') (lookup k m)
unfolding insert_all
lookup-insert_all k [] m' = ground arith
lookup-insert_all k ((j, v) ∷ m) m' =
    ground (arith, lookup-insert_all k m (insert m' j v), lookup-insert k j v m')

lookup-drain :
    (k : Bytes) (queue : List UrlMap) (m : UrlMap)
    → lookup k (drain queue m) ≡ or_else (lookup k m) (first_with k queue)
unfolding drain
lookup-drain k [] m = ground arith
lookup-drain k (q ∷ queue) m =
    ground (arith, lookup-drain k queue (insert_all q m), lookup-insert_all k q m)

-- `getQueue` on a queue that is not empty takes every map out, and hands out under each key the list
-- of the first map that has the key: what later maps hold under the same key is dropped.
pub get_queue-first :
    (m : UrlMap) (queue : List UrlMap) (later : List (List UrlMap))
    → (result : UrlMap) × (get_queue ((m ∷ queue) ∷ later) ≡ some (result, []))
      × ((k : Bytes) → lookup k result ≡ first_with k (m ∷ queue))
unfolding get_queue
get_queue-first m queue later = (drain (m ∷ queue) [], refl, λ k. lookup-drain k (m ∷ queue) [])

-- `addQueue` appends a map that is not empty if its keys and the maps in the queue are five at most
-- together, and otherwise waits: a map of more than five keys waits even for the empty queue.
add_queue-added_iff :
    (queue queue' : List UrlMap) (e : Bytes × List Bytes) (es : UrlMap)
    → (add_queue queue (e ∷ es) ≡ added queue')
      ↔ ((queue' ≡ queue ++ (e ∷ es) ∷ []) × (length (e ∷ es) + length queue ≤ max_queue_size))
unfolding add_queue
add_queue-added_iff queue queue' e es = ground arith
