-- ===== src/ParseQueue/Threads.antt =====
-- The parse queue under any number of feeding and parsing threads. The lock makes each critical
-- section one step, so a run is a sequence of such steps in any order.
use mathlib.Core.List.{Perm, perm_append_comm}
use mathlib.Core.List.Perm
use studytest.Base.{
  ℕ, zero, suc, ◌≤◌, ◌≡◌, ap, List, [], ◌∷◌, ◌++◌, append_assoc, arith, Bytes, length,
  length-append, replicate,
}
use studytest.ParseQueue.{max_queue_size, added, add_queue, take_out, got, get_queue}
use studytest.ParseQueue.Laws.{take_out_lem}

-- The queue, with all lines ever fed and all lines ever handed out.
pub record Shared : Type 0 where
  pub queue : List Bytes
  pub fed : List Bytes
  pub delivered : List Bytes

abbrev pub fresh : Shared
fresh = record { queue = []; fed = []; delivered = [] }

-- `feed`: an `addQueue` finds room. `fetch`: a `getQueue` has waited for an empty queue some times,
-- three at most, and now ends at the queue as it is. A call that waits or is refused changes nothing.
pub data Step : Shared → Shared → Type 0 where
  feed :
      (s : Shared) (xs queue : List Bytes)
      → add_queue s.queue xs ≡ added queue
      → Step s (record s { queue = queue; fed = xs ++ s.fed })
  fetch :
      (s : Shared) (num waited : ℕ) (out queue : List Bytes)
      → waited ≤ 3
      → get_queue num (replicate waited [] ++ s.queue ∷ []) ≡ got out queue
      → Step s (record s { queue = queue; delivered = out ++ s.delivered })

pub data Run (s : Shared) : Shared → Type 0 where
  here : Run s s
  next : {t u : Shared} → Run s t → Step t u → Run s u

pub record IsSound (s : Shared) : Type 0 where
  pub bounded : length s.queue ≤ max_queue_size
  pub kept : Perm (s.delivered ++ s.queue) s.fed

pub add_queue_lem :
    (queue xs queue' : List Bytes)
    → add_queue queue xs ≡ added queue'
    → (queue' ≡ xs ++ queue) × (length queue' ≤ max_queue_size)
unfolding add_queue
add_queue_lem queue [] queue' e = cc
add_queue_lem queue (x ∷ xs) queue' e = ground (arith, length-append xs queue)

-- A call that has waited ends at the queue that it finds last.
pub get_queue_now :
    (num waited : ℕ) (queue out rest : List Bytes)
    → waited ≤ 3
    → get_queue num (replicate waited [] ++ queue ∷ []) ≡ got out rest
    → (out ≡ (take_out num queue).0) × (rest ≡ (take_out num queue).1)
unfolding get_queue
get_queue_now num zero [] out rest h e = ground arith
get_queue_now num (suc zero) [] out rest h e = ground arith
get_queue_now num (suc (suc zero)) [] out rest h e = ground arith
get_queue_now num (suc (suc (suc zero))) [] out rest h e = ground arith
get_queue_now num (suc (suc (suc (suc k)))) queue out rest h e = absurd (omega arith)
get_queue_now num zero (x ∷ xs) out rest h e = ground arith
get_queue_now num (suc zero) (x ∷ xs) out rest h e = ground arith
get_queue_now num (suc (suc zero)) (x ∷ xs) out rest h e = ground arith
get_queue_now num (suc (suc (suc zero))) (x ∷ xs) out rest h e = ground arith

-- The first part may be moved behind the second.
perm_past : (a b c : List Bytes) → Perm ((a ++ b) ++ c) (b ++ (a ++ c))
perm_past a b c = rw (← append_assoc b a c) (Perm.append_right c (perm_append_comm a b))

feed-IsSound :
    (s : Shared) (xs queue : List Bytes)
    → add_queue s.queue xs ≡ added queue
    → IsSound s
    → IsSound (record s { queue = queue; fed = xs ++ s.fed })
feed-IsSound s xs queue e v = record {
  bounded = (add_queue_lem s.queue xs queue e).1;
  kept = rw ((add_queue_lem s.queue xs queue e).0) (
      Perm.trans (Perm.symm (perm_past xs s.delivered s.queue))
        (rw append_assoc (Perm.append_left xs v.kept)));
}

fetch-IsSound :
    (s : Shared) (num : ℕ)
    → IsSound s
    → IsSound (record s {
      queue = (take_out num s.queue).1;
      delivered = (take_out num s.queue).0 ++ s.delivered;
    })
fetch-IsSound s num v =
    let (whole, count) = take_out_lem num s.queue in
    record {
      bounded = omega (
        arith,
        ap length whole,
        length-append (take_out num s.queue).0 (take_out num s.queue).1,
        v.bounded,
      );
      kept =
          Perm.trans (perm_past (take_out num s.queue).0 s.delivered (take_out num s.queue).1)
            (rw whole v.kept);
    }

Step-IsSound : {s t : Shared} → Step s t → IsSound s → IsSound t
Step-IsSound (feed s xs queue e) v = feed-IsSound s xs queue e v
Step-IsSound (fetch s num waited out queue h e) v =
    let (o, q) = get_queue_now num waited s.queue out queue h e in rw (o, q) (fetch-IsSound s num v)

-- In every run from the empty queue the queue never holds more than fifty lines, and the lines handed
-- out together with those in the queue are the lines fed, each as often.
pub Run-IsSound : {s : Shared} → Run fresh s → IsSound s
Run-IsSound here = record { bounded = omega arith; kept = Perm.refl [] }
Run-IsSound (next r st) = Step-IsSound st (Run-IsSound r)
