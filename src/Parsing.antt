-- ===== src/Parsing.antt =====
-- down_parse_client/parse_client/send_parse.cpp and the loop of start_parse in parse_func.cpp: the threads
-- that take lines from the parse queue, and the one that feeds it. A step is what a thread does under the
-- lock, or its look at a variable that the threads share; all orders of steps are possible. The parsing
-- threads are those whose `ping` the parser has answered; the others return before the loop.
pub mod Safety
pub mod Pass
pub mod Page
pub mod Request
mod Tests
use studytest.Base.{
  ℕ, zero, suc, ◌+◌, ◌≤◌, ◌≡◌, List, [], ◌∷◌, ◌++◌, Option, some, none, Bool, true, false, Bytes,
  replicate, length,
}
use studytest.ParseQueue.{added, add_queue, invalid, waiting, got, get_queue}

-- Where a parsing thread is in `run`: before getQueue, at the test of `is_finish` with an empty list, among
-- the lines that it got, or returned.
pub data Worker : Type 0 where
  looking : Worker
  deciding : Worker
  working : List Bytes → Worker
  exited : Worker

-- behind `get_page_list`
abbrev pub receive : List Bytes → Worker
receive [] = deciding
receive (line ∷ lines) = working (line ∷ lines)

-- behind a line of the list
abbrev pub onward : List Bytes → Worker
onward [] = looking
onward (line ∷ lines) = working (line ∷ lines)

-- Where the feeding thread is in `start_parse`: in send_queue, with the batches that it will still add and
-- the number that it will return; in the loop that waits for the empty queue; or behind `is_finish = 1`.
pub data Feeder : Type 0 where
  sending : List (List Bytes) → ℕ → Feeder
  emptying : ℕ → Feeder
  done : Feeder

-- The threads and what they share, with all lines ever added and all lines ever handed to `do_send_parse`.
pub record System : Type 0 where
  pub queue : List Bytes
  pub is_finish : Bool
  pub workers : List Worker
  pub feeder : Feeder
  pub fed : List Bytes
  pub parsed : List Bytes

-- the lines for one call of getQueue
abbrev pub page_num : ℕ
page_num = 5

pub data Step : System → System → Type 0 where
  take :
      (s : System) (ws vs : List Worker) (waited : ℕ) (out queue : List Bytes)
      → s.workers ≡ ws ++ looking ∷ vs
      → waited ≤ 3
      → get_queue page_num (replicate waited [] ++ s.queue ∷ []) ≡ got out queue
      → Step s (record s { queue = queue; workers = ws ++ receive out ∷ vs })
  leave :
      (s : System) (ws vs : List Worker)
      → s.workers ≡ ws ++ deciding ∷ vs
      → s.is_finish ≡ true
      → Step s (record s { workers = ws ++ exited ∷ vs })
  again :
      (s : System) (ws vs : List Worker)
      → s.workers ≡ ws ++ deciding ∷ vs
      → s.is_finish ≡ false
      → Step s (record s { workers = ws ++ looking ∷ vs })
  parse :
      (s : System) (ws vs : List Worker) (line : Bytes) (lines : List Bytes)
      → s.workers ≡ ws ++ working (line ∷ lines) ∷ vs
      → Step s (record s { workers = ws ++ onward lines ∷ vs; parsed = line ∷ s.parsed })
  push :
      (s : System) (batch : List Bytes) (batches : List (List Bytes)) (cnt : ℕ) (queue : List Bytes)
      → s.feeder ≡ sending (batch ∷ batches) cnt
      → add_queue s.queue batch ≡ added queue
      → Step s (record s { queue = queue; feeder = sending batches cnt; fed = batch ++ s.fed })
  pass :
      (s : System) (cnt : ℕ)
      → s.feeder ≡ sending [] cnt
      → Step s (record s { feeder = emptying cnt })
  repeat :
      (s : System) (cnt cnt' : ℕ) (batches : List (List Bytes))
      → s.feeder ≡ emptying (suc cnt)
      → s.queue ≡ []
      → Step s (record s { feeder = sending batches cnt' })
  finish :
      (s : System)
      → s.feeder ≡ emptying 0
      → s.queue ≡ []
      → Step s (record s { feeder = done; is_finish = true })

pub data Run (s : System) : System → Type 0 where
  here : Run s s
  next : {t u : System} → Run s t → Step t u → Run s u

-- `n` threads, and the first pass over the seed file
abbrev pub start : ℕ → List (List Bytes) → ℕ → System
start n batches cnt = record {
  queue = [];
  is_finish = false;
  workers = replicate n looking;
  feeder = sending batches cnt;
  fed = [];
  parsed = [];
}
