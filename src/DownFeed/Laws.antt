-- ===== src/DownFeed/Laws.antt =====
-- What `send_queue` queues: every page to load once, in the order of the file.
use studytest.Base.{
  ℕ, suc, ◌+◌, ◌%◌, ◌≡◌, ◌≢◌, refl, sym, ap, ◌∙◌, List, [], ◌∷◌, ◌++◌, append_assoc, append-nil,
  Option, some, none, ◌&&◌, arith, Bytes, codes, length, ltb, ◌==◌, find, Option-cases, Bool-cases,
  inl, inr,
}
use studytest.Strings.{leaves, explode}
use studytest.Strings.Trim.{trim-leaves}
use studytest.DownFeed.{
  Files, SeedLine, skipped, stray, page, of_items, of_trimmed, seed_line, to_load, pages_per_proxy,
  Feed, store, feed_line, feed_lines, last_batch, send_queue,
}

of_items_lem : (line : Bytes) (items : List Bytes) → of_items line items ≢ stray
of_items_lem line [] = λ e. cc
of_items_lem line (a ∷ []) = λ e. cc
of_items_lem line (a ∷ (b ∷ [])) = λ e. cc
of_items_lem line (a ∷ (b ∷ (c ∷ more))) = λ e. cc

of_trimmed_lem : (line : Bytes) → of_trimmed (leaves line) ≢ stray
of_trimmed_lem line = elim (Option-cases (find line (codes "\t"))) [
  | inl e ↦ rw (e, of_trimmed) (λ k. cc)
  | inr (pos, e) ↦ rw (e, of_trimmed) (of_items_lem line (explode line (codes "\t") []))
]

seed_line_lem : (line : Bytes) → seed_line line ≢ stray
unfolding seed_line
seed_line_lem [] = λ e. cc
seed_line_lem (c ∷ tmp) =
    let (r, e) = trim-leaves (c ∷ tmp) (codes "\t\n\r ") refl in rw e (of_trimmed_lem r)

-- the lines of a seed file that are pages to load, each asked for with the disk as the lines before it
-- leave it
abbrev pub pages_of : (Files → List Bytes) → ℕ → Files → SeedLine → List Bytes
pages_of more size files skipped = more files
pages_of more size files stray = more files
pages_of more size files (page line local_file) = elim (to_load size files local_file) [
  | none ↦ more files
  | some files' ↦ line ∷ more files'
]

abbrev pub pages : ℕ → Files → List Bytes → List Bytes
pages size files [] = []
pages size files (line ∷ lines) = pages_of (λ fs. pages size fs lines) size files (seed_line line)

-- the lines of all batches, in order
abbrev pub lines_of : List (Bytes × List Bytes) → List Bytes
lines_of [] = []
lines_of ((host, lines) ∷ batches) = lines ++ lines_of batches

lines_of-append :
    (batches : List (Bytes × List Bytes)) (host : Bytes) (lines : List Bytes)
    → lines_of (batches ++ (host, lines) ∷ []) ≡ lines_of batches ++ lines
lines_of-append [] host lines = append-nil lines
lines_of-append ((h, ls) ∷ batches) host lines =
    ap (◌++◌ ls) (lines_of-append batches host lines)
    ∙ sym (append_assoc ls (lines_of batches) lines)

-- the lines queued or stored
abbrev held : Feed → List Bytes
held f = lines_of f.batches ++ f.url_list

module _ (proxy_list : List Bytes) (rand : ℕ → ℕ)
    (normal_page_size page_num_per_proxy down_counter : ℕ) where
  store-held :
      (f : Feed) (line : Bytes)
      → (held (store proxy_list rand normal_page_size page_num_per_proxy down_counter f line)
          ≡ held f ++ line ∷ [])
        × ((store proxy_list rand normal_page_size page_num_per_proxy down_counter f line).counter
            ≡ suc f.counter)
        × ((store proxy_list rand normal_page_size page_num_per_proxy down_counter f line).files
            ≡ f.files)
  unfolding store
  store-held f line =
      elim (Bool-cases (ltb 0 f.counter && (f.counter % pages_per_proxy page_num_per_proxy == 0))) [
        | inl full ↦ rw full (
          append-nil (lines_of (f.batches ++ (_, f.url_list ++ line ∷ []) ∷ []))
              ∙ lines_of-append f.batches _ (f.url_list ++ line ∷ [])
              ∙ sym (append_assoc (lines_of f.batches) f.url_list (line ∷ [])),
          refl,
          refl,
        )
        | inr room ↦
            rw room (sym (append_assoc (lines_of f.batches) f.url_list (line ∷ [])), refl, refl)
      ]

  abbrev Feeds : Feed → Option Feed → List Bytes → Type 0
  Feeds f read ps =
      (f' : Feed) × (read ≡ some f')
      × (held f' ≡ held f ++ ps)
      × (f'.counter ≡ f.counter + length ps)

  abbrev read_on : List Bytes → Option Feed → Option Feed
  read_on lines o = elim o [
    | none ↦ none
    | some f ↦ feed_lines proxy_list rand normal_page_size page_num_per_proxy down_counter f lines
  ]

  feed_line-Feeds :
      (f : Feed) (l : SeedLine) (lines : List Bytes)
      → l ≢ stray
      → ((g : Feed) (fs : Files)
          → g.files ≡ fs
          → Feeds g
              (feed_lines proxy_list rand normal_page_size page_num_per_proxy down_counter g lines)
              (pages normal_page_size fs lines))
      → Feeds f
          (read_on lines
            (feed_line proxy_list rand normal_page_size page_num_per_proxy down_counter f l))
          (pages_of (λ fs. pages normal_page_size fs lines) normal_page_size f.files l)
  feed_line-Feeds f skipped lines ne more = more f f.files refl
  feed_line-Feeds f stray lines ne more = absurd (ne refl)
  feed_line-Feeds f (page line local_file) lines ne more =
      elim (Option-cases (to_load normal_page_size f.files local_file)) [
        | inl e ↦ rw (e, read_on, feed_line, pages_of) (more f f.files refl)
        | inr (fs, e) ↦
            let g = record f { files = fs } in
            let (h, c, k) = store-held g line in
            let (f', e', h', c') =
              more (store proxy_list rand normal_page_size page_num_per_proxy down_counter g line)
                fs k in
            rw (e, read_on, feed_line, pages_of)
              (
                f',
                e',
                h'
                    ∙ ap (λ t. t ++ pages normal_page_size fs lines) h
                    ∙ append_assoc (held f) (line ∷ []) (pages normal_page_size fs lines),
                omega (arith, c, c'),
              )
      ]

  feed_lines-Feeds :
      (lines : List Bytes) (f : Feed) (fs : Files)
      → f.files ≡ fs
      → Feeds f
          (feed_lines proxy_list rand normal_page_size page_num_per_proxy down_counter f lines)
          (pages normal_page_size fs lines)
  unfolding feed_lines
  feed_lines-Feeds [] f fs k = (f, refl, sym (append-nil (held f)), omega arith)
  feed_lines-Feeds (line ∷ lines) f fs k =
      rw (← k)
        (feed_line-Feeds f (seed_line line) lines (seed_line_lem line) (feed_lines-Feeds lines))

  last_batch-held :
      (f : Feed) (rest : List Bytes)
      → lines_of
          (last_batch proxy_list rand normal_page_size page_num_per_proxy down_counter f rest)
        ≡ lines_of f.batches ++ rest
  last_batch-held f [] = sym (append-nil (lines_of f.batches))
  last_batch-held f (line ∷ rest) = lines_of-append f.batches _ (line ∷ rest)

  -- Whatever a seed file that can be opened holds and however the proxies are chosen, `send_queue`
  -- reads it to its end without a read outside a string; the batches that it queues hold every
  -- page to load once, in the order of the file, and it returns how many these are.
  pub send_queue_lem :
      (files : Files) (lines : List Bytes)
      → (batches : List (Bytes × List Bytes)) × (send_queue proxy_list rand normal_page_size
            page_num_per_proxy down_counter files lines
          ≡ some (batches, length (pages normal_page_size files lines)))
        × (lines_of batches ≡ pages normal_page_size files lines)
  unfolding send_queue
  send_queue_lem files lines =
      let (f, e, h, c) =
        feed_lines-Feeds lines (record { files = files; url_list = []; counter = 0; batches = [] })
          files refl in
      let batches =
        last_batch proxy_list rand normal_page_size page_num_per_proxy down_counter f f.url_list in
      let count : f.counter ≡ length (pages normal_page_size files lines) = omega (arith, c) in
      (
        batches,
        rw (e, send_queue) (ap (λ n. some (batches, n)) count),
        last_batch-held f f.url_list ∙ h,
      )
