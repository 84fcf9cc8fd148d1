-- ===== src/DownFeed/Batches.antt =====
-- How many lines the batches of `send_queue` have.
use studytest.Base.{
  ℕ, zero, suc, ◌%◌, ◌≤◌, ◌<◌, ◌≡◌, refl, List, [], ◌∷◌, some, ◌&&◌, arith, Bytes, length, ltb,
  ◌==◌, Option-cases, Bool-cases, inl, inr,
}
use mathlib.Core.Path.{subst}
use studytest.DownFeed.{
  Files, SeedLine, skipped, stray, page, seed_line, to_load, pages_per_proxy, Feed, store,
  feed_line, feed_lines, last_batch, send_queue,
}
use studytest.DownFeed.Laws.{pages, lines_of, send_queue_lem}
use studytest.DownFeed.Fill.{
  IsFull, IsSized, IsSized-full, IsSized-last, Fill, Fill-full, Fill-room, Fill-IsFull,
}

pages_per_proxy-positive : (n : ℕ) → 0 < pages_per_proxy n
pages_per_proxy-positive zero = omega arith
pages_per_proxy-positive (suc n) = omega arith

module _ (proxy_list : List Bytes) (rand : ℕ → ℕ)
    (normal_page_size page_num_per_proxy down_counter : ℕ) where
  abbrev Filled : Feed → Type 0
  Filled f = Fill (pages_per_proxy page_num_per_proxy) f.batches f.url_list f.counter

  store-Filled :
      (f : Feed) (line : Bytes)
      → Filled f
      → Filled (store proxy_list rand normal_page_size page_num_per_proxy down_counter f line)
  unfolding store
  store-Filled f line h =
      let p = pages_per_proxy page_num_per_proxy in
      let hp = pages_per_proxy-positive page_num_per_proxy in
      elim (Bool-cases (ltb 0 f.counter && (f.counter % p == 0))) [
        | inl full ↦
            rw full
              (Fill-full p f.batches f.url_list f.counter _ line hp (ground arith) (ground arith) h)
        | inr room ↦ rw room (Fill-room p f.batches f.url_list f.counter line hp room h)
      ]

  feed_line-Filled :
      (f g : Feed) (l : SeedLine)
      → feed_line proxy_list rand normal_page_size page_num_per_proxy down_counter f l ≡ some g
      → Filled f
      → Filled g
  feed_line-Filled f g skipped e h = let is : f ≡ g = cc in subst Filled is h
  feed_line-Filled f g stray e h = cc
  feed_line-Filled f g (page line local_file) e h =
      elim (Option-cases (to_load normal_page_size f.files local_file)) [
        | inl there ↦
            let is : f ≡ g = let known = rw (there, feed_line) at e in cc in subst Filled is h
        | inr (fs, absent) ↦
            let stored = store-Filled (record f { files = fs }) line h in
            let is : store proxy_list rand normal_page_size page_num_per_proxy down_counter
                  (record f { files = fs }) line
                ≡ g =
              let known = rw (absent, feed_line) at e in cc in
            subst Filled is stored
      ]

  feed_lines-Filled :
      (lines : List Bytes) (f g : Feed)
      → feed_lines proxy_list rand normal_page_size page_num_per_proxy down_counter f lines ≡ some g
      → Filled f
      → Filled g
  unfolding feed_lines
  feed_lines-Filled [] f g e h = let is : f ≡ g = cc in subst Filled is h
  feed_lines-Filled (line ∷ lines) f g e h =
      elim (Option-cases (
        feed_line proxy_list rand normal_page_size page_num_per_proxy down_counter f
          (seed_line line))) [
            | inl none_left ↦ let never = rw (none_left, feed_lines) at e in cc
            | inr (f', step) ↦
                feed_lines-Filled lines f' g (rw (step, feed_lines) at e)
                  (feed_line-Filled f f' (seed_line line) step h)
          ]

  last_batch-IsSized :
      (f : Feed) (rest : List Bytes)
      → IsFull
          (suc (pages_per_proxy page_num_per_proxy))
          (pages_per_proxy page_num_per_proxy)
          f.batches
      → length rest ≤ pages_per_proxy page_num_per_proxy
      → IsSized
          (suc (pages_per_proxy page_num_per_proxy))
          (pages_per_proxy page_num_per_proxy)
          (last_batch proxy_list rand normal_page_size page_num_per_proxy down_counter f rest)
  last_batch-IsSized f [] full most =
      IsSized-full _ _ f.batches (omega arith) (pages_per_proxy-positive page_num_per_proxy) full
  last_batch-IsSized f (line ∷ rest) full most =
      IsSized-last _ _ f.batches _ (omega arith) (omega arith) most full

  -- Whatever a seed file that can be opened holds and however the proxies are chosen, `send_queue` reads it to
  -- its end; the batches that it queues hold every page to load once, in the order of the file, and it returns how
  -- many these are. No batch is empty: the first one has one line more than a proxy is to load, every other batch
  -- but the last has as many as a proxy is to load, and the last batch no more than that (or than the first, if it
  -- is the only one). A proxy is to load `page_num_per_proxy` pages, or 20 if the setting is 0.
  pub send_queue-IsSized :
      (files : Files) (lines : List Bytes)
      → (batches : List (Bytes × List Bytes)) × (send_queue proxy_list rand normal_page_size
            page_num_per_proxy down_counter files lines
          ≡ some (batches, length (pages normal_page_size files lines)))
        × (lines_of batches ≡ pages normal_page_size files lines)
        × IsSized
            (suc (pages_per_proxy page_num_per_proxy))
            (pages_per_proxy page_num_per_proxy)
            batches
  unfolding send_queue
  send_queue-IsSized files lines =
      let empty : Feed = record { files = files; url_list = []; counter = 0; batches = [] } in
      let (batches, done, held) =
        send_queue_lem proxy_list rand normal_page_size page_num_per_proxy down_counter files
          lines in
      (
        batches,
        done,
        held,
        elim (Option-cases (
            feed_lines proxy_list rand normal_page_size page_num_per_proxy down_counter empty
              lines)) [
                | inl never ↦ let contrary = rw (never, send_queue) at done in cc
                | inr (f, e) ↦
                    let (full, most) =
                      Fill-IsFull _ f.batches f.url_list f.counter
                        (feed_lines-Filled lines empty f e (refl, omega arith)) in
                    let last : last_batch proxy_list rand normal_page_size page_num_per_proxy
                          down_counter f f.url_list
                        ≡ batches =
                      let known = rw (e, send_queue) at done in cc in
                    subst (IsSized _ _) last (last_batch-IsSized f f.url_list full most)
              ],
      )
