-- ===== src/DownServer/Queued.antt =====
-- The download server behind the feeding thread: what it reads of the lines that are queued.
use mathlib.Core.Path.{subst}
use mathlib.Core.List.{cons-ne-nil}
use studytest.Base.{
  ℕ, ◌≡◌, ◌≢◌, refl, sym, ap, ◌∙◌, List, [], ◌∷◌, ◌++◌, Option, some, none, Bytes, codes, find, All,
  Option-cases, inl, inr, ◌<◌, true, IsByte,
}
use studytest.Strings.{leaves, rtrim, explode}
use studytest.Strings.Trim.{trim-leaves}
use studytest.Strings.Split.{join, Lacks, join-explode, explode-Lacks}
use studytest.DownFeed.{
  Files, SeedLine, skipped, stray, page, of_items, of_trimmed, seed_line, to_load, send_queue,
}
use studytest.DownFeed.Laws.{pages_of, pages, lines_of, send_queue_lem}
use studytest.DownServer.{Web, DownConfig, run}
use studytest.DownServer.Runs.{Reads, AllRead, Disk, AllNew, RunEffect}
use studytest.DownServer.Leaves.{run_lem}

-- A queued line: a line of the seed file was trimmed to it, and both sides read the same place of the page.
abbrev pub Queued : Bytes → Bytes → Bytes → Type 0
Queued line url path =
    Reads line (some (url, path)) × (raw : Bytes) × (seed_line raw ≡ page line path)

of_items-Reads :
    (r line path : Bytes) (items : List Bytes)
    → join items (codes "\t") ≡ r
    → All (Lacks (codes "\t")) items
    → of_items r items ≡ page line path
    → (url : Bytes) × Reads line (some (url, path))
of_items-Reads r line path [] e h is = cc
of_items-Reads r line path (a ∷ []) e h is = cc
of_items-Reads r line path (a ∷ (b ∷ [])) e h is = cc
of_items-Reads r line path (a ∷ (b ∷ (c ∷ more))) e (ha, (hb, h)) is =
    let same_line : r ≡ line = cc in
    let same_path : b ≡ path = cc in
    (
      a,
      (
        c ∷ more,
        sym same_line ∙ sym e ∙ ap (λ t. join (a ∷ (t ∷ (c ∷ more))) (codes "\t")) same_path,
        (ha, (subst (Lacks (codes "\t")) same_path hb, h)),
      ),
    )

of_trimmed-Reads :
    (r line path : Bytes)
    → of_trimmed (leaves r) ≡ page line path
    → (url : Bytes) × Reads line (some (url, path))
of_trimmed-Reads [] line path is = cc
of_trimmed-Reads (c ∷ r) line path is = elim (Option-cases (find (c ∷ r) (codes "\t"))) [
  | inl e ↦ let never = rw (e, of_trimmed) at is in cc
  | inr (p, e) ↦
      of_items-Reads (c ∷ r) line path (explode (c ∷ r) (codes "\t") [])
        (join-explode (c ∷ r) (codes "\t") (cons-ne-nil _ _) (cons-ne-nil _ _))
        (explode-Lacks (c ∷ r) (codes "\t") (cons-ne-nil _ _)) (rw (e, of_trimmed) at is)
]

seed_line-Reads :
    (raw line path : Bytes)
    → seed_line raw ≡ page line path
    → (url : Bytes) × Reads line (some (url, path))
unfolding seed_line
seed_line-Reads [] line path is = cc
seed_line-Reads (c ∷ tmp) line path is =
    let (r, e) = trim-leaves (c ∷ tmp) (codes "\t\n\r ") refl in
    of_trimmed-Reads r line path (rw e at is)

abbrev AnyQueued : Bytes → Type 0
AnyQueued line = (url path : Bytes) × Queued line url path

pages_of-AnyQueued :
    (more : Files → List Bytes) (size : ℕ) (files : Files) (raw : Bytes) (l : SeedLine)
    → seed_line raw ≡ l
    → ((fs : Files) → All AnyQueued (more fs))
    → All AnyQueued (pages_of more size files l)
pages_of-AnyQueued more size files raw skipped is h = h files
pages_of-AnyQueued more size files raw stray is h = h files
pages_of-AnyQueued more size files raw (page line path) is h =
    elim (Option-cases (to_load size files path)) [
      | inl e ↦ rw (e, pages_of) (h files)
      | inr (fs, e) ↦
          let (url, reads) = seed_line-Reads raw line path is in
          rw (e, pages_of) ((url, path, (reads, raw, is)), h fs)
    ]

pages-AnyQueued :
    (size : ℕ) (files : Files) (lines : List Bytes) → All AnyQueued (pages size files lines)
pages-AnyQueued size files [] = tt
pages-AnyQueued size files (raw ∷ lines) =
    pages_of-AnyQueued (λ fs. pages size fs lines) size files raw (seed_line raw) refl
      (λ fs. pages-AnyQueued size fs lines)

-- the batches of a list of lines
lines_of-All :
    (P : Bytes → Type 0) (batches : List (Bytes × List Bytes))
    → All P (lines_of batches)
    → All (λ b. All P b.1) batches
lines_of-All P [] h = tt
lines_of-All P ((host, lines) ∷ batches) h =
    let (first, rest) = All-split P lines (lines_of batches) h in
    (first, lines_of-All P batches rest)
  where
    All-split : (P : Bytes → Type 0) (xs ys : List Bytes) → All P (xs ++ ys) → All P xs × All P ys
    All-split P [] ys h = (tt, h)
    All-split P (x ∷ xs) ys (hx, h) = let (a, b) = All-split P xs ys h in ((hx, a), b)

-- What a queued batch is for the server: each line is a page at the place that the feeding thread looked at.
abbrev pub Places : List Bytes → List (Option (Bytes × Bytes)) → Type 0
Places [] [] = Unit
Places [] (i ∷ items) = ⊥
Places (line ∷ lines) [] = ⊥
Places (line ∷ lines) (none ∷ items) = ⊥
Places (line ∷ lines) (some (url, path) ∷ items) =
    ((raw : Bytes) × (seed_line raw ≡ page line path)) × Places lines items

batch-items :
    (lines : List Bytes)
    → All AnyQueued lines
    → (items : List (Option (Bytes × Bytes))) × Places lines items × AllRead lines items
batch-items [] h = ([], tt, tt)
batch-items (line ∷ lines) ((url, path, (reads, raw, is)), h) =
    let (items, places, read) = batch-items lines h in
    (some (url, path) ∷ items, ((raw, is), places), (reads, read))

module _ (conf : DownConfig) (web : Web) (uuid : ℕ → List ℕ) (dir : Bytes) (n : ℕ) (d : Disk) where
  -- what the server makes of a batch, behind `n` uuids
  abbrev pub Runs : Bytes × List Bytes → Type 0
  Runs (host, ls) =
      (items : List (Option (Bytes × Bytes))) × Places ls items
      × RunEffect conf web uuid dir (run conf web uuid true n ls) n items d

module _ (proxy_list : List Bytes) (rand : ℕ → ℕ)
    (normal_page_size page_num_per_proxy down_counter : ℕ) (conf : DownConfig) (web : Web)
    (uuid : ℕ → List ℕ) (dir : Bytes) (bytes : (m : ℕ) → All IsByte (uuid m))
    (differ : (i j : ℕ) → i < j → uuid i ≢ uuid j) (forks : (cmd : Bytes) → web.forks cmd ≡ true)
    (trims : rtrim conf.tmp_html_dir (codes "/") ≡ leaves dir) (n : ℕ) (d : Disk)
    (new : AllNew uuid dir n d) where
  batch-Runs : (b : Bytes × List Bytes) → All AnyQueued b.1 → Runs conf web uuid dir n d b
  batch-Runs (host, ls) h =
      let (items, places, read) = batch-items ls h in
      (items, places, run_lem conf web uuid dir bytes differ forks trims n ls items d read new)

  batches-Runs :
      (batches : List (Bytes × List Bytes))
      → All (λ b. All AnyQueued b.1) batches
      → All (Runs conf web uuid dir n d) batches
  batches-Runs [] h = tt
  batches-Runs (b ∷ batches) (hb, h) = (batch-Runs b hb, batches-Runs batches h)

  -- From the seed file to the pages: whatever the seed file holds, `send_queue` queues batches, and the
  -- download server reads each line of a batch as a page whose place is the local file that `send_queue` looked
  -- at. Its run over any of the batches, with a handle of libcurl, returns 0, keeps the pages that
  -- arrive whole and have more than 1024 bytes, each in its temporary file, and gives the script this file and that
  -- place; the files of the others are removed. The directory for the files can be trimmed, `popen` makes a process,
  -- no uuid comes twice, and no file has the name of a uuid to come.
  pub send_queue-run :
      (files : Files) (lines : List Bytes)
      → (batches : List (Bytes × List Bytes)) × (counter : ℕ) × (send_queue proxy_list rand
            normal_page_size page_num_per_proxy down_counter files lines
          ≡ some (batches, counter))
        × All (Runs conf web uuid dir n d) batches
  send_queue-run files lines =
      let (batches, done, queued) =
        send_queue_lem proxy_list rand normal_page_size page_num_per_proxy down_counter files
          lines in
      let whole : All AnyQueued (lines_of batches) =
        subst (All AnyQueued) (sym queued) (pages-AnyQueued normal_page_size files lines) in
      (batches, _, done, batches-Runs batches (lines_of-All AnyQueued batches whole))
