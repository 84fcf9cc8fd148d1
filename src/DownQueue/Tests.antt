-- ===== src/DownQueue/Tests.antt =====
-- The download queue at concrete maps, and the theorems about it there.
use studytest.Base.{◌≡◌, refl, List, [], ◌∷◌, some, none, Bytes, codes}
use studytest.DownQueue.{UrlMap, lookup, get_queue, drain, insert, insert_all}
use studytest.DownQueue.Laws.{first_with, get_queue-first}

abbrev direct : Bytes
direct = []

-- two batches without a proxy, one after the other
abbrev batches : List UrlMap
batches = ((direct, codes "a" ∷ []) ∷ []) ∷ (((direct, codes "b" ∷ []) ∷ []) ∷ [])

-- the second batch is gone
batch_lost : get_queue (batches ∷ []) ≡ some ((direct, codes "a" ∷ []) ∷ [], [])
unfolding get_queue drain insert insert_all
batch_lost = refl

waits_twice : get_queue ([] ∷ ([] ∷ [])) ≡ none
unfolding get_queue
waits_twice = refl

gives_up : get_queue ([] ∷ ([] ∷ ([] ∷ []))) ≡ some ([], [])
unfolding get_queue drain
gives_up = refl

get_queue-first_example :
    (result : UrlMap) × (get_queue (batches ∷ []) ≡ some (result, []))
    × ((k : Bytes) → lookup k result ≡ first_with k batches)
get_queue-first_example =
    get_queue-first ((direct, codes "a" ∷ []) ∷ []) (((direct, codes "b" ∷ []) ∷ []) ∷ []) []
