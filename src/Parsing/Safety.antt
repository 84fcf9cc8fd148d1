-- ===== src/Parsing/Safety.antt =====
-- No line is lost on its way through the threads.
use studytest.Base.{
  ℕ, zero, suc, ◌+◌, ◌≡◌, ◌≢◌, refl, ap, ◌∙◌, List, [], ◌∷◌, ◌++◌, Bool, true, false, Bytes,
  replicate, arith, same, if◌then◌else◌, All,
}
use studytest.ParseQueue.Laws.{take_out_lem}
use studytest.ParseQueue.Threads.{add_queue_lem, get_queue_now}
use studytest.Parsing.{
  Worker, looking, deciding, working, exited, receive, onward, done, System, page_num, Step, take,
  leave, again, parse, push, pass, repeat, finish, Run, here, next, start,
}

-- how often a line is in a list
abbrev pub count : Bytes → List Bytes → ℕ
count l [] = 0
count l (x ∷ xs) = (if same l x then 1 else 0) + count l xs

pub count-append : (l : Bytes) (xs ys : List Bytes) → count l (xs ++ ys) ≡ count l xs + count l ys
count-append l [] ys = omega arith
count-append l (x ∷ xs) ys = omega (arith, count-append l xs ys)

-- the lines that a thread has still to hand on
abbrev pub lines_of : Worker → List Bytes
lines_of looking = []
lines_of deciding = []
lines_of (working lines) = lines
lines_of exited = []

abbrev pub held : Bytes → List Worker → ℕ
held l [] = 0
held l (w ∷ ws) = count l (lines_of w) + held l ws

held-append : (l : Bytes) (ws vs : List Worker) → held l (ws ++ vs) ≡ held l ws + held l vs
held-append l [] vs = omega arith
held-append l (w ∷ ws) vs = omega (arith, held-append l ws vs)

-- One thread changes, and the others keep what they hold.
held-middle :
    (l : Bytes) (ws vs : List Worker) (w : Worker)
    → held l (ws ++ w ∷ vs) ≡ held l ws + (count l (lines_of w) + held l vs)
held-middle l ws vs w = held-append l ws (w ∷ vs)

receive-count : (l : Bytes) (out : List Bytes) → count l (lines_of (receive out)) ≡ count l out
receive-count l [] = refl
receive-count l (x ∷ xs) = refl

onward-count : (l : Bytes) (out : List Bytes) → count l (lines_of (onward out)) ≡ count l out
onward-count l [] = refl
onward-count l (x ∷ xs) = refl

-- A thread has returned only behind `is_finish = 1`.
abbrev IsTimely : Bool → Worker → Type 0
IsTimely fin w = w ≡ exited → fin ≡ true

pub record IsConserving (s : System) : Type 0 where
  pub conserved :
      (l : Bytes) → count l s.parsed + (held l s.workers + count l s.queue) ≡ count l s.fed
  pub timely : All (IsTimely s.is_finish) s.workers
  pub finished : s.is_finish ≡ true → (s.queue ≡ []) × (s.feeder ≡ done)

All-middle :
    (P : Worker → Type 0) (ws vs : List Worker) (w w' : Worker)
    → P w'
    → All P (ws ++ w ∷ vs)
    → All P (ws ++ w' ∷ vs)
All-middle P [] vs w w' p (q, h) = (p, h)
All-middle P (v ∷ ws) vs w w' p (q, h) = (q, All-middle P ws vs w w' p h)

All-at : (P : Worker → Type 0) (ws vs : List Worker) (w : Worker) → All P (ws ++ w ∷ vs) → P w
All-at P [] vs w (p, h) = p
All-at P (v ∷ ws) vs w (p, h) = All-at P ws vs w h

rest-nil : (xs ys : List Bytes) → xs ++ ys ≡ [] → ys ≡ []
rest-nil [] ys e = e
rest-nil (x ∷ xs) ys e = cc

-- One thread changes without a look at the flag: what is parsed, held and queued stays as often.
worker-IsConserving :
    (s : System) (ws vs : List Worker) (w w' : Worker) (queue parsed : List Bytes)
    → s.workers ≡ ws ++ w ∷ vs
    → (w' ≡ exited → s.is_finish ≡ true)
    → ((l : Bytes)
        → count l parsed + (count l (lines_of w') + count l queue)
          ≡ count l s.parsed + (count l (lines_of w) + count l s.queue))
    → (s.queue ≡ [] → queue ≡ [])
    → IsConserving s
    → IsConserving (record s { queue = queue; workers = ws ++ w' ∷ vs; parsed = parsed })
worker-IsConserving s ws vs w w' queue parsed e timely same_count empty v = record {
  conserved = λ l. omega (
    arith,
    v.conserved l,
    same_count l,
    ap (held l) e,
    held-middle l ws vs w,
    held-middle l ws vs w',
  );
  timely = All-middle (IsTimely s.is_finish) ws vs w w' timely (rw (← e) v.timely);
  finished = λ f. let (q, d) = v.finished f in (empty q, d);
}

take-IsConserving :
    (s : System) (ws vs : List Worker) (out queue : List Bytes)
    → s.workers ≡ ws ++ looking ∷ vs
    → out ++ queue ≡ s.queue
    → IsConserving s
    → IsConserving (record s { queue = queue; workers = ws ++ receive out ∷ vs })
take-IsConserving s ws vs out queue e whole v =
    worker-IsConserving s ws vs looking (receive out) queue s.parsed e (received out)
      (λ l. omega (arith, receive-count l out, ap (count l) whole, count-append l out queue))
      (λ q. rest-nil out queue (whole ∙ q)) v
  where
    received : (out : List Bytes) → receive out ≡ exited → s.is_finish ≡ true
    received [] k = cc
    received (x ∷ xs) k = cc

Step-IsConserving : {s t : System} → Step s t → IsConserving s → IsConserving t
Step-IsConserving (take s ws vs waited out queue e h got_it) v =
    let (o, q) = get_queue_now page_num waited s.queue out queue h got_it in
    take-IsConserving s ws vs out queue e (rw (o, q) (take_out_lem page_num s.queue).0) v
Step-IsConserving (leave s ws vs e fin) v =
    worker-IsConserving s ws vs deciding exited s.queue s.parsed e (λ k. fin) (λ l. refl) (λ q. q) v
Step-IsConserving (again s ws vs e fin) v =
    worker-IsConserving s ws vs deciding looking s.queue s.parsed e (λ k. cc) (λ l. refl) (λ q. q) v
Step-IsConserving (parse s ws vs line lines e) v =
    worker-IsConserving s ws vs (working (line ∷ lines)) (onward lines) s.queue (line ∷ s.parsed) e
      (went lines) (λ l. omega (arith, onward-count l lines)) (λ q. q) v
  where
    went : (lines : List Bytes) → onward lines ≡ exited → s.is_finish ≡ true
    went [] k = cc
    went (x ∷ xs) k = cc
Step-IsConserving (push s batch batches cnt queue e added_it) v =
    let (q, _) = add_queue_lem s.queue batch queue added_it in
    record {
      conserved = λ l. omega (
        arith,
        v.conserved l,
        ap (count l) q,
        count-append l batch s.queue,
        count-append l batch s.fed,
      );
      timely = v.timely;
      finished = λ f. let d = (v.finished f).1 in cc;
    }
Step-IsConserving (pass s cnt e) v = record {
  conserved = v.conserved;
  timely = v.timely;
  finished = λ f. let d = (v.finished f).1 in cc;
}
Step-IsConserving (repeat s cnt cnt' batches e q) v = record {
  conserved = v.conserved;
  timely = v.timely;
  finished = λ f. let d = (v.finished f).1 in cc;
}
Step-IsConserving (finish s e q) v = record {
  conserved = v.conserved;
  timely = all_timely s.workers;
  finished = λ f. (q, refl);
}
  where
    all_timely : (ws : List Worker) → All (IsTimely true) ws
    all_timely [] = tt
    all_timely (w ∷ ws) = ((λ k. refl), all_timely ws)

start-IsConserving :
    (n : ℕ) (batches : List (List Bytes)) (cnt : ℕ) → IsConserving (start n batches cnt)
start-IsConserving n batches cnt = record {
  conserved = λ l. nothing l n;
  timely = idle n;
  finished = λ f. cc;
}
  where
    nothing : (l : Bytes) (n : ℕ) → 0 + (held l (replicate n looking) + 0) ≡ 0
    nothing l zero = omega arith
    nothing l (suc n) = omega (arith, nothing l n)

    idle : (n : ℕ) → All (IsTimely false) (replicate n looking)
    idle zero = tt
    idle (suc n) = ((λ k. cc), idle n)

Run-IsConserving : {s t : System} → IsConserving s → Run s t → IsConserving t
Run-IsConserving v here = v
Run-IsConserving v (next r st) = Step-IsConserving st (Run-IsConserving v r)

fin-exited :
    (fin : Bool) (ws : List Worker)
    → ws ≢ []
    → All (λ w. w ≡ exited) ws
    → All (IsTimely fin) ws
    → fin ≡ true
fin-exited fin [] ne h t = absurd (ne refl)
fin-exited fin (w ∷ ws) ne (e, h) (k, t) = k e

exited-held : (l : Bytes) (ws : List Worker) → All (λ w. w ≡ exited) ws → held l ws ≡ 0
exited-held l [] h = refl
exited-held l (w ∷ ws) (e, h) = omega (arith, ap (λ v. count l (lines_of v)) e, exited-held l ws h)

-- The feeding thread is done when the parsing threads have returned.
pub exited-done :
    (n cnt : ℕ) (batches : List (List Bytes)) {s : System}
    → Run (start n batches cnt) s
    → s.workers ≢ []
    → All (λ w. w ≡ exited) s.workers
    → s.feeder ≡ done
exited-done n cnt batches {s} r ne h =
    let v = Run-IsConserving (start-IsConserving n batches cnt) r in
    (v.finished (fin-exited s.is_finish s.workers ne h v.timely)).1

-- However the threads take turns, and however often the seed file is passed over: when all parsing threads
-- whose parser answered the ping have returned, and there is at least one, the queue is empty and each line
-- that was ever added to it has been handed to `do_send_parse` as often as it was added.
pub exited-parsed :
    (n cnt : ℕ) (batches : List (List Bytes)) {s : System}
    → Run (start n batches cnt) s
    → s.workers ≢ []
    → All (λ w. w ≡ exited) s.workers
    → (s.queue ≡ []) × ((l : Bytes) → count l s.parsed ≡ count l s.fed)
exited-parsed n cnt batches {s} r ne h =
    let v = Run-IsConserving (start-IsConserving n batches cnt) r in
    let (q, _) = v.finished (fin-exited s.is_finish s.workers ne h v.timely) in
    (q, λ l. omega (arith, v.conserved l, exited-held l s.workers h, ap (count l) q))
