-- ===== src/Downloading/Tests.antt =====
-- The downloading threads at a concrete map, and the theorem about them there.
use studytest.Base.{
  ◌≡◌, ◌≤◌, ◌⊎◌, refl, List, [], ◌∷◌, ◌++◌, true, false, Bytes, codes, length, All, arith,
}
use studytest.DownQueue.{UrlMap, max_queue_size, add_queue, get_queue, insert, insert_all, drain}
use studytest.Downloading.{
  Loader, looking, deciding, loading, exited, sending, emptying, done, System, Run, Step, start,
}
use studytest.Downloading.Laws.{loaded-fed}

abbrev batch : UrlMap
batch = (codes "p:80", codes "l" ∷ []) ∷ []

abbrev begun : System
begun = start 1

-- One thread: the map is added, got and loaded, the parsing is over, and the thread leaves.
abbrev ended : System
ended = record {
  queue = [];
  is_finish = true;
  parse_thread_exit = true;
  workers = exited ∷ [];
  feeder = done;
  fed = batch;
  loaded = batch;
  failed = false;
}

history : Run begun ended
unfolding add_queue get_queue insert insert_all drain
history =
    let s0 : System = record begun { feeder = sending (batch ∷ []) 0 } in
    let s1 : System = record s0 { queue = batch ∷ []; feeder = sending [] 0; fed = batch } in
    let s2 : System = record s1 { queue = []; workers = loading batch ∷ [] } in
    let s3 : System = record s2 { workers = looking ∷ []; loaded = batch } in
    let s4 : System = record s3 { feeder = emptying 0 } in
    let s5 : System = record s4 { parse_thread_exit = true } in
    let s6 : System = record s5 { workers = deciding ∷ [] } in
    let s7 : System = record s6 { feeder = done; is_finish = true } in
    Run.next
      (Run.next
        (Run.next
          (Run.next
            (Run.next
              (Run.next
                (Run.next
                  (Run.next (Run.next Run.here (Step.opened begun (batch ∷ []) 0 refl))
                    (Step.push s0 batch [] 0 (batch ∷ []) refl refl))
                  (Step.take s1 [] [] 0 batch [] refl (omega arith) refl))
                (Step.load s2 [] [] (codes "p:80") (codes "l") [] [] refl))
              (Step.pass s3 0 refl))
            (Step.parsed s4))
          (Step.take s5 [] [] 2 [] [] refl (omega arith) refl))
        (Step.finish s6 refl refl refl))
      (Step.leave s7 [] [] refl refl)

loaded-fed_example :
    (length ended.queue ≤ max_queue_size)
    × ((P : Bytes × List Bytes → Type 0) → All P ended.fed → All P ended.loaded)
    × ((ws vs : List Loader)
        → ended.workers ≡ ws ++ exited ∷ vs
        → (ended.failed ≡ true) ⊎ ((ended.queue ≡ []) × (ended.feeder ≡ done)))
loaded-fed_example = loaded-fed 1 history
