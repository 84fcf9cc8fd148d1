-- ===== src/ParseQueue/Tests.antt =====
-- The parse queue at concrete lines, and the theorems about it there.
use studytest.Base.{◌≡◌, ◌++◌, refl, List, [], ◌∷◌, Bytes, codes, arith}
use studytest.ParseQueue.{got, waiting, added, add_queue, get_queue}
use studytest.ParseQueue.Threads.{Shared, Step, Run, IsSound, Run-IsSound, fresh}

abbrev lines : List Bytes
lines = codes "a" ∷ codes "b" ∷ codes "c" ∷ []

-- five are asked for and there are six, so four are handed out
one_short :
    get_queue 5 ((lines ++ lines) ∷ []) ≡ got (lines ++ codes "a" ∷ []) (codes "b" ∷ codes "c" ∷ [])
unfolding get_queue
one_short = refl

takes_all : get_queue 5 ([] ∷ lines ∷ []) ≡ got lines []
unfolding get_queue
takes_all = refl

still_waiting : get_queue 5 ([] ∷ []) ≡ waiting
unfolding get_queue
still_waiting = refl

to_the_front : add_queue lines (codes "x" ∷ []) ≡ added (codes "x" ∷ lines)
unfolding add_queue
to_the_front = refl

-- three lines are fed, and two of them are handed out after one wait
abbrev history : Shared
history = record { queue = codes "b" ∷ codes "c" ∷ []; fed = lines; delivered = codes "a" ∷ [] }

history_runs : Run fresh history
unfolding add_queue get_queue
history_runs = Run.next (Run.next Run.here (Step.feed fresh lines lines refl)) (
    Step.fetch (record { queue = lines; fed = lines; delivered = [] }) 2 1 (codes "a" ∷ [])
      (codes "b" ∷ codes "c" ∷ []) (omega arith) refl)

Run-IsSound_example : IsSound history
Run-IsSound_example = Run-IsSound history_runs
