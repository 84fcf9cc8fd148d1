-- ===== src/Downloading.antt =====
-- down_parse_client/down_client/send_request.cpp, and the loop of start_down in down_func.cpp: the threads that
-- take maps from the download queue and have the pages loaded, and the one that feeds it. A step is what a
-- thread does under the lock, one call of the download server, or a look at a shared variable; all orders of
-- steps are possible. The threads are those whose `ping` the server has answered.
pub mod Queued
pub mod Laws
mod Tests
use studytest.Base.{
  ℕ, zero, suc, ◌≤◌, ◌≡◌, List, [], ◌∷◌, ◌++◌, Bool, true, false, ◌||◌, ltb, some, Bytes, replicate,
  not,
}
use studytest.DownQueue.{UrlMap, added, add_queue, get_queue}

-- Where a thread is in `run`: before getQueue, at the test of `is_finish` with an empty map, in the loop over
-- the map that it got, or returned.
pub data Loader : Type 0 where
  looking : Loader
  deciding : Loader
  loading : UrlMap → Loader
  exited : Loader

-- behind `get_page_list`
abbrev pub receive : UrlMap → Loader
receive [] = deciding
receive (e ∷ m) = loading (e ∷ m)

-- behind an entry of the map
abbrev pub onward : UrlMap → Loader
onward [] = looking
onward (e ∷ m) = loading (e ∷ m)

-- Where start_down is: before the `fopen` of send_queue; behind it, with the maps that it will still add and the
-- number that it will return; in the loop that waits for the empty queue; or behind its own `is_finish = 1`.
pub data Feeder : Type 0 where
  opening : Feeder
  sending : List UrlMap → ℕ → Feeder
  emptying : ℕ → Feeder
  done : Feeder

-- The threads and what they share, with the entries ever added and those that `run_down` was called with, and
-- whether an `fopen` of the seed file has failed.
pub record System : Type 0 where
  pub queue : List UrlMap
  pub is_finish : Bool
  pub parse_thread_exit : Bool
  pub workers : List Loader
  pub feeder : Feeder
  pub fed : UrlMap
  pub loaded : UrlMap
  pub failed : Bool

pub data Step : System → System → Type 0 where
  take :
      (s : System) (ws vs : List Loader) (waited : ℕ) (data' : UrlMap) (queue : List UrlMap)
      → s.workers ≡ ws ++ looking ∷ vs
      → waited ≤ 2
      → get_queue (replicate waited [] ++ s.queue ∷ []) ≡ some (data', queue)
      → Step s (record s { queue = queue; workers = ws ++ receive data' ∷ vs })
  leave :
      (s : System) (ws vs : List Loader)
      → s.workers ≡ ws ++ deciding ∷ vs
      → s.is_finish ≡ true
      → Step s (record s { workers = ws ++ exited ∷ vs })
  again :
      (s : System) (ws vs : List Loader)
      → s.workers ≡ ws ++ deciding ∷ vs
      → s.is_finish ≡ false
      → Step s (record s { workers = ws ++ looking ∷ vs })
  load :
      (s : System) (ws vs : List Loader) (proxy url : Bytes) (urls : List Bytes) (m : UrlMap)
      → s.workers ≡ ws ++ loading ((proxy, url ∷ urls) ∷ m) ∷ vs
      → Step s (record s { workers = ws ++ onward m ∷ vs; loaded = (proxy, url ∷ urls) ∷ s.loaded })
  skip :
      (s : System) (ws vs : List Loader) (proxy : Bytes) (m : UrlMap)
      → s.workers ≡ ws ++ loading ((proxy, []) ∷ m) ∷ vs
      → Step s (record s { workers = ws ++ onward m ∷ vs })
  opened :
      (s : System) (batches : List UrlMap) (counter : ℕ)
      → s.feeder ≡ opening
      → Step s (record s { feeder = sending batches counter })
  -- `is_finish = 1` and the -2 of send_queue, which is not above 0
  unreadable :
      (s : System)
      → s.feeder ≡ opening
      → Step s (record s { feeder = emptying 0; is_finish = true; failed = true })
  push :
      (s : System) (batch : UrlMap) (batches : List UrlMap) (counter : ℕ) (queue : List UrlMap)
      → s.feeder ≡ sending (batch ∷ batches) counter
      → add_queue s.queue batch ≡ added queue
      → Step s (record s { queue = queue; feeder = sending batches counter; fed = batch ++ s.fed })
  pass :
      (s : System) (counter : ℕ)
      → s.feeder ≡ sending [] counter
      → Step s (record s { feeder = emptying counter })
  repeat :
      (s : System) (counter : ℕ)
      → s.feeder ≡ emptying counter
      → s.queue ≡ []
      → (ltb 0 counter || not s.parse_thread_exit) ≡ true
      → Step s (record s { feeder = opening })
  finish :
      (s : System)
      → s.feeder ≡ emptying 0
      → s.queue ≡ []
      → s.parse_thread_exit ≡ true
      → Step s (record s { feeder = done; is_finish = true })
  parsed : (s : System) → Step s (record s { parse_thread_exit = true })

pub data Run (s : System) : System → Type 0 where
  here : Run s s
  next : {t u : System} → Run s t → Step t u → Run s u

-- `n` threads, and the first pass over the seed file
abbrev pub start : ℕ → System
start n = record {
  queue = [];
  is_finish = false;
  parse_thread_exit = false;
  workers = replicate n looking;
  feeder = opening;
  fed = [];
  loaded = [];
  failed = false;
}
