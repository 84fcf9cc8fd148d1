-- ===== src/Downloading/Laws.antt =====
-- What the downloading threads call the server with, and when they return.
use studytest.Base.{
  ℕ, zero, suc, ◌≤◌, ◌⊎◌, ◌≡◌, refl, ap, List, [], ◌∷◌, ◌++◌, Bool, true, false, Bytes, replicate,
  length, arith, All, All-append, inl, inr,
}
use studytest.DownQueue.{UrlMap, max_queue_size}
use studytest.Downloading.Queued.{add_queue_lem, get_queue_now, All-behind, drain-All}
use studytest.Downloading.{
  Loader, looking, deciding, loading, exited, receive, onward, done, System, Step, take, leave,
  again, load, skip, opened, unreadable, push, pass, repeat, finish, parsed, Run, here, next, start,
}

module _ (P : Bytes × List Bytes → Type 0) where
  -- what a thread has got holds only such entries, and it has returned only behind `is_finish = 1`
  abbrev pub IsFair : Bool → Loader → Type 0
  IsFair fin looking = Unit
  IsFair fin deciding = Unit
  IsFair fin (loading m) = All P m
  IsFair fin exited = fin ≡ true

  receive-IsFair : (fin : Bool) (m : UrlMap) → All P m → IsFair fin (receive m)
  receive-IsFair fin [] h = tt
  receive-IsFair fin (e ∷ m) h = h

  onward-IsFair : (fin : Bool) (m : UrlMap) → All P m → IsFair fin (onward m)
  onward-IsFair fin [] h = tt
  onward-IsFair fin (e ∷ m) h = h

  record IsFairSystem (s : System) : Type 0 where
    bounded : length s.queue ≤ max_queue_size
    queued : All (All P) s.queue
    fair : All (IsFair s.is_finish) s.workers
    called : All P s.loaded
    finished : s.is_finish ≡ true → (s.failed ≡ true) ⊎ ((s.queue ≡ []) × (s.feeder ≡ done))

  IsFair-middle :
      (fin : Bool) (ws vs : List Loader) (w w' : Loader)
      → (IsFair fin w → IsFair fin w')
      → All (IsFair fin) (ws ++ w ∷ vs)
      → All (IsFair fin) (ws ++ w' ∷ vs)
  IsFair-middle fin [] vs w w' p (q, h) = (p q, h)
  IsFair-middle fin (v ∷ ws) vs w w' p (q, h) = (q, IsFair-middle fin ws vs w w' p h)

  -- One thread changes its place.
  worker-IsFair :
      (s : System) (ws vs : List Loader) (w w' : Loader)
      → s.workers ≡ ws ++ w ∷ vs
      → (IsFair s.is_finish w → IsFair s.is_finish w')
      → IsFairSystem s
      → IsFairSystem (record s { workers = ws ++ w' ∷ vs })
  worker-IsFair s ws vs w w' e p v = record {
    bounded = v.bounded;
    queued = v.queued;
    fair = IsFair-middle s.is_finish ws vs w w' p (rw (← e) v.fair);
    called = v.called;
    finished = v.finished;
  }

  load-IsFair :
      (s : System) (ws vs : List Loader) (e : Bytes × List Bytes) (m : UrlMap)
      → s.workers ≡ ws ++ loading (e ∷ m) ∷ vs
      → IsFairSystem s
      → P e × IsFairSystem (record s { workers = ws ++ onward m ∷ vs })
  load-IsFair s ws vs x m e v = (
    (fair_at ws (rw (← e) v.fair)).0,
    worker-IsFair s ws vs (loading (x ∷ m)) (onward m) e (λ h. onward-IsFair s.is_finish m h.1) v,
  )
    where
      fair_at :
          (ws : List Loader) → All (IsFair s.is_finish) (ws ++ loading (x ∷ m) ∷ vs) → All P (x ∷ m)
      fair_at [] (h, _) = h
      fair_at (w ∷ ws) (_, h) = fair_at ws h

  finish-IsFair : (fin : Bool) (ws : List Loader) → All (IsFair fin) ws → All (IsFair true) ws
  finish-IsFair fin [] h = tt
  finish-IsFair fin (looking ∷ ws) (_, h) = (tt, finish-IsFair fin ws h)
  finish-IsFair fin (deciding ∷ ws) (_, h) = (tt, finish-IsFair fin ws h)
  finish-IsFair fin (loading m ∷ ws) (hm, h) = (hm, finish-IsFair fin ws h)
  finish-IsFair fin (exited ∷ ws) (_, h) = (refl, finish-IsFair fin ws h)

  Step-IsFair :
      {s t : System} → Step s t → (All P s.fed → IsFairSystem s) → All P t.fed → IsFairSystem t
  Step-IsFair (take s ws vs waited m queue e h got_it) v f =
      let (out, rest) = get_queue_now waited s.queue m queue h got_it in
      let all : All P m = rw out (drain-All P s.queue [] (v f).queued tt) in
      let w =
        worker-IsFair s ws vs looking (receive m) e (λ _. receive-IsFair s.is_finish m all) (v f) in
      record {
        bounded = omega (arith, ap length rest);
        queued = rw rest tt;
        fair = w.fair;
        called = w.called;
        finished =
            λ k. elim (w.finished k) [ inl failed ↦ inl failed | inr (_, over) ↦ inr (rest, over) ];
      }
  Step-IsFair (leave s ws vs e fin) v f = worker-IsFair s ws vs deciding exited e (λ _. fin) (v f)
  Step-IsFair (again s ws vs e fin) v f = worker-IsFair s ws vs deciding looking e (λ _. tt) (v f)
  Step-IsFair (load s ws vs proxy url urls m e) v f =
      let (p, w) = load-IsFair s ws vs (proxy, url ∷ urls) m e (v f) in
      record {
        bounded = w.bounded;
        queued = w.queued;
        fair = w.fair;
        called = (p, w.called);
        finished = w.finished;
      }
  Step-IsFair (skip s ws vs proxy m e) v f = (load-IsFair s ws vs (proxy, []) m e (v f)).1
  Step-IsFair (opened s batches counter e) v f =
      let w = v f in
      record {
        bounded = w.bounded;
        queued = w.queued;
        fair = w.fair;
        called = w.called;
        finished = λ k. elim (w.finished k) [ inl failed ↦ inl failed | inr (_, over) ↦ cc ];
      }
  Step-IsFair (unreadable s e) v f =
      let w = v f in
      record {
        bounded = w.bounded;
        queued = w.queued;
        fair = finish-IsFair s.is_finish s.workers w.fair;
        called = w.called;
        finished = λ k. inl refl;
      }
  Step-IsFair (push s batch batches counter queue e added_it) v f =
      let (b, old) = All-behind P batch s.fed f in
      let w = v old in
      let (q, small) = add_queue_lem s.queue batch queue added_it in
      record {
        bounded = small;
        queued = rw q (All-append (All P) s.queue (batch ∷ []) w.queued (b, tt));
        fair = w.fair;
        called = w.called;
        finished = λ k. elim (w.finished k) [ inl failed ↦ inl failed | inr (_, over) ↦ cc ];
      }
  Step-IsFair (pass s counter e) v f =
      let w = v f in
      record {
        bounded = w.bounded;
        queued = w.queued;
        fair = w.fair;
        called = w.called;
        finished = λ k. elim (w.finished k) [ inl failed ↦ inl failed | inr (_, over) ↦ cc ];
      }
  Step-IsFair (repeat s counter e q more) v f =
      let w = v f in
      record {
        bounded = w.bounded;
        queued = w.queued;
        fair = w.fair;
        called = w.called;
        finished = λ k. elim (w.finished k) [ inl failed ↦ inl failed | inr (_, over) ↦ cc ];
      }
  Step-IsFair (finish s e q p) v f =
      let w = v f in
      record {
        bounded = w.bounded;
        queued = w.queued;
        fair = finish-IsFair s.is_finish s.workers w.fair;
        called = w.called;
        finished = λ k. inr (q, refl);
      }
  Step-IsFair (parsed s) v f =
      let w = v f in
      record {
        bounded = w.bounded;
        queued = w.queued;
        fair = w.fair;
        called = w.called;
        finished = w.finished;
      }

  start-IsFair : (n : ℕ) → IsFairSystem (start n)
  start-IsFair n = record {
    bounded = omega arith;
    queued = tt;
    fair = idle n;
    called = tt;
    finished = λ k. cc;
  }
    where
      idle : (n : ℕ) → All (IsFair false) (replicate n looking)
      idle zero = tt
      idle (suc n) = (tt, idle n)

  Run-IsFair : {s t : System} → IsFairSystem s → Run s t → All P t.fed → IsFairSystem t
  Run-IsFair v here f = v
  Run-IsFair v (next r st) f = Step-IsFair st (Run-IsFair v r) f

-- nothing asked of an entry
abbrev Anything : Bytes × List Bytes → Type 0
Anything e = Unit

-- However the threads take turns, and whatever the maps that are added: the queue never holds more than five
-- maps; the server is called only with a proxy and lines that were added for this proxy together (what
-- holds of each entry that was added holds of each that it is called with); and when a thread has returned,
-- either the seed file could not be opened once, or the queue is empty and the feeding thread is done.
pub loaded-fed :
    (n : ℕ) {s : System}
    → Run (start n) s
    → (length s.queue ≤ max_queue_size)
      × ((P : Bytes × List Bytes → Type 0) → All P s.fed → All P s.loaded)
      × ((ws vs : List Loader)
          → s.workers ≡ ws ++ exited ∷ vs
          → (s.failed ≡ true) ⊎ ((s.queue ≡ []) × (s.feeder ≡ done)))
loaded-fed n {s} r =
    let every = λ (P : Bytes × List Bytes → Type 0). Run-IsFair P (start-IsFair P n) r in
    let v = every Anything (anything s.fed) in
    (
      v.bounded,
      λ P f. (every P f).called,
      λ ws vs e. v.finished (timely_at ws vs s.is_finish (rw (← e) v.fair)),
    )
  where
    anything : (m : UrlMap) → All Anything m
    anything [] = tt
    anything (e ∷ m) = (tt, anything m)

    timely_at :
        (ws vs : List Loader) (fin : Bool)
        → All (IsFair Anything fin) (ws ++ exited ∷ vs)
        → fin ≡ true
    timely_at [] vs fin (e, h) = e
    timely_at (w ∷ ws) vs fin (_, h) = timely_at ws vs fin h
