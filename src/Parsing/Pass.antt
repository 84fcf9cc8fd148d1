-- ===== src/Parsing/Pass.antt =====
-- From the seed file to the parser: what a pass of `send_queue` finds to parse goes through the queue and
-- the threads.
use studytest.Base.{ℕ, ◌+◌, ◌≤◌, ◌≡◌, ◌≢◌, ap, ◌∙◌, List, [], some, Option, Bool, Bytes, All, arith}
use mathlib.Core.Path.{subst}
use studytest.ParseFeed.{send_queue}
use studytest.ParseFeed.Laws.{concat, pages, Queues, send_queue-Queues}
use studytest.Parsing.{
  exited, Feeder, sending, emptying, done, System, Step, take, leave, again, parse, push, pass,
  repeat, finish, Run, here, next, start,
}
use studytest.Parsing.Safety.{count, count-append, exited-done, exited-parsed}

-- the lines that the feeding thread has still to add
abbrev pending : Feeder → List Bytes
pending (sending batches cnt) = concat batches
pending (emptying cnt) = []
pending done = []

-- What was to be added is added or still pending.
abbrev IsFeeding : List Bytes → System → Type 0
IsFeeding lines s = (l : Bytes) → count l lines ≤ count l s.fed + count l (pending s.feeder)

Step-IsFeeding :
    (lines : List Bytes) {s t : System} → Step s t → IsFeeding lines s → IsFeeding lines t
Step-IsFeeding lines (take s ws vs waited out queue e h got_it) v = v
Step-IsFeeding lines (leave s ws vs e fin) v = v
Step-IsFeeding lines (again s ws vs e fin) v = v
Step-IsFeeding lines (parse s ws vs line more e) v = v
Step-IsFeeding lines (push s batch batches cnt queue e added_it) v = λ l. omega (
  arith,
  v l,
  ap (λ f. count l (pending f)) e,
  count-append l batch (concat batches),
  count-append l batch s.fed,
)
Step-IsFeeding lines (pass s cnt e) v = λ l. omega (arith, v l, ap (λ f. count l (pending f)) e)
Step-IsFeeding lines (repeat s cnt cnt' batches e q) v =
    λ l. omega (arith, v l, ap (λ f. count l (pending f)) e)
Step-IsFeeding lines (finish s e q) v = λ l. omega (arith, v l, ap (λ f. count l (pending f)) e)

Run-IsFeeding :
    (lines : List Bytes) {s t : System} → IsFeeding lines s → Run s t → IsFeeding lines t
Run-IsFeeding lines v here = v
Run-IsFeeding lines v (next r st) = Step-IsFeeding lines st (Run-IsFeeding lines v r)

batches-whole :
    (ps : List Bytes) (batches : List (List Bytes)) (cnt : ℕ) (r : Option (List (List Bytes) × ℕ))
    → Queues r (some ps)
    → r ≡ some (batches, cnt)
    → concat batches ≡ ps
batches-whole ps batches cnt r (bs, e, whole, _) queued =
    let alike : batches ≡ bs = cc in ap concat alike ∙ whole

-- The first pass over the seed file: `pages` are the lines whose page has no item file, in order. When the
-- parsing threads have returned, of which at least one got past the ping, each of these lines has been
-- handed to `do_send_parse` at least as often as it is among them, however the threads took turns.
pub send_queue-parsed :
    (task_dir : Bytes) (readable : Bytes → Bool) (lines ps : List Bytes)
    (batches : List (List Bytes)) (n cnt : ℕ) {s : System}
    → pages task_dir readable lines ≡ some ps
    → send_queue task_dir readable lines ≡ some (batches, cnt)
    → Run (start n batches cnt) s
    → s.workers ≢ []
    → All (λ w. w ≡ exited) s.workers
    → (l : Bytes) → count l ps ≤ count l s.parsed
send_queue-parsed task_dir readable lines ps batches n cnt {s} found queued r ne h l =
    let (_, parsed) = exited-parsed n cnt batches r ne h in
    let fed = Run-IsFeeding (concat batches) {s = start n batches cnt} (λ l. omega arith) r l in
    let whole =
      batches-whole ps batches cnt _
        (subst (Queues (send_queue task_dir readable lines)) found
          (send_queue-Queues task_dir readable lines))
        queued in
    let ended = exited-done n cnt batches r ne h in
    omega (arith, fed, parsed l, ap (λ f. count l (pending f)) ended, ap (count l) whole)
