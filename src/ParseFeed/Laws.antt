-- ===== src/ParseFeed/Laws.antt =====
-- What `send_queue` of parse_func.cpp queues.
use studytest.Base.{
  ℕ, suc, ◌+◌, ◌%◌, ◌≤◌, ◌≡◌, refl, sym, ap, ◌∙◌, List, [], ◌∷◌, ◌++◌, append_assoc, append-nil,
  Option, some, none, Bool, true, false, Bytes, length, length-append, arith, ◌==◌, ==_iff, All,
  All-append, Bool-cases, inl, inr, ◌⊎◌,
}
use studytest.DownFeed.{SeedLine, skipped, stray, page, seed_line}
use studytest.ParseFeed.{
  Feed, empty, store, to_parse, stored_if, feed_line, feed_lines, last_batch, send_queue,
}

-- all lists, one after the other
abbrev pub concat : List (List Bytes) → List Bytes
concat [] = []
concat (b ∷ bs) = b ++ concat bs

pub concat-append :
    (bs : List (List Bytes)) (b : List Bytes) → concat (bs ++ b ∷ []) ≡ concat bs ++ b
concat-append [] b = append-nil b
concat-append (a ∷ bs) b = ap (◌++◌ a) (concat-append bs b) ∙ sym (append_assoc a (concat bs) b)

-- a batch that `addQueue` takes: not empty, and far below the size of the queue
abbrev pub IsBatch : List Bytes → Type 0
IsBatch b = (1 ≤ length b) × (length b ≤ 20)

-- the place of the next line in its batch, if a line has been counted
abbrev IsPlace : ℕ → ℕ → Type 0
IsPlace counter size = ((counter ≡ 0) × (size ≡ 0)) ⊎ ((1 ≤ counter) × (size ≡ (counter + 19) % 20))

-- What is stored is short, and the counter says how short.
record IsCounted (f : Feed) : Type 0 where
  sized : All IsBatch f.batches
  place : IsPlace f.counter (length f.cur_list)

place-short : (counter size : ℕ) → IsPlace counter size → size ≤ 20
place-short counter size h = ground arith

cur_short : (f : Feed) → IsCounted f → length f.cur_list ≤ 20
cur_short f v = place-short f.counter (length f.cur_list) v.place

abbrev held : Feed → List Bytes
held f = concat f.batches ++ f.cur_list

full_count : (counter size : ℕ) → (counter % 20 == 0) ≡ true → IsPlace counter size → size + 1 ≤ 20
full_count counter size full h = ground arith

full_place : (counter : ℕ) → (counter % 20 == 0) ≡ true → (0 == (suc counter + 19) % 20) ≡ true
full_place counter full = ground arith

room_place :
    (counter size : ℕ)
    → (counter % 20 == 0) ≡ false
    → IsPlace counter size
    → size + 1 ≡ (suc counter + 19) % 20
room_place counter size room h = ground arith

store-IsCounted : (f : Feed) (line : Bytes) → IsCounted f → IsCounted (store f line)
unfolding store
store-IsCounted f line v = elim (Bool-cases (f.counter % 20 == 0)) [
  | inl full ↦
      let n = length-append f.cur_list (line ∷ []) in
      let count = full_count f.counter (length f.cur_list) full v.place in
      rw full (record {
        sized =
            All-append IsBatch f.batches ((f.cur_list ++ line ∷ []) ∷ []) v.sized
              ((omega (arith, n), omega (arith, n, count)), tt);
        place = inr (omega arith, (==_iff _ _).0 (full_place f.counter full));
      })
  | inr room ↦
      let n = length-append f.cur_list (line ∷ []) in
      rw room (record {
        sized = v.sized;
        place = inr (omega arith, n ∙ room_place f.counter (length f.cur_list) room v.place);
      })
]

store-held :
    (f : Feed) (line : Bytes)
    → (held (store f line) ≡ held f ++ line ∷ []) × ((store f line).counter ≡ suc f.counter)
unfolding store
store-held f line = elim (Bool-cases (f.counter % 20 == 0)) [
  | inl full ↦ rw full (
    append-nil (concat (f.batches ++ (f.cur_list ++ line ∷ []) ∷ []))
        ∙ concat-append f.batches (f.cur_list ++ line ∷ [])
        ∙ sym (append_assoc (concat f.batches) f.cur_list (line ∷ [])),
    refl,
  )
  | inr room ↦ rw room (sym (append_assoc (concat f.batches) f.cur_list (line ∷ [])), refl)
]

-- the pages to parse of the lines of a seed file, in order; `none` is a read outside a string
abbrev pub with_page : Bytes → Option Bool → Option (List Bytes) → Option (List Bytes)
with_page line none rest = none
with_page line (some parse) none = none
with_page line (some true) (some ps) = some (line ∷ ps)
with_page line (some false) (some ps) = some ps

last_batch-held :
    (f : Feed) (rest : List Bytes)
    → All IsBatch f.batches
    → length rest ≤ 20
    → (concat (last_batch f.batches rest) ≡ concat f.batches ++ rest)
      × All IsBatch (last_batch f.batches rest)
last_batch-held f [] v h = (sym (append-nil (concat f.batches)), v)
last_batch-held f (line ∷ rest) v h = (
  concat-append f.batches (line ∷ rest),
  All-append IsBatch f.batches ((line ∷ rest) ∷ []) v ((omega arith, h), tt),
)

-- What a pass over the seed file comes to.
abbrev pub Queues : Option (List (List Bytes) × ℕ) → Option (List Bytes) → Type 0
Queues r none = r ≡ none
Queues r (some ps) =
    (batches : List (List Bytes)) × (r ≡ some (batches, length ps))
    × (concat batches ≡ ps)
    × All IsBatch batches

module _ (task_dir : Bytes) (readable : Bytes → Bool) where
  abbrev pub pages_of : SeedLine → Option (List Bytes) → Option (List Bytes)
  pages_of skipped rest = rest
  pages_of stray rest = none
  pages_of (page line local_file) rest = with_page line (to_parse task_dir readable local_file) rest

  abbrev pub pages : List Bytes → Option (List Bytes)
  pages [] = some []
  pages (line ∷ lines) = pages_of (seed_line line) (pages lines)

  -- The loop, with what it stored before: it stops where a page reads outside a string.
  abbrev Feeds : Feed → Option Feed → Option (List Bytes) → Type 0
  Feeds f r none = r ≡ none
  Feeds f r (some ps) =
      (f' : Feed) × (r ≡ some f')
      × (held f' ≡ held f ++ ps)
      × (f'.counter ≡ f.counter + length ps)
      × IsCounted f'

  stored_if-Feeds :
      (f : Feed) (line : Bytes) (lines : List Bytes) (o : Option Bool) (rest : Option (List Bytes))
      → IsCounted f
      → ((g : Feed) → IsCounted g → Feeds g (feed_lines task_dir readable g lines) rest)
      → Feeds f
          (elim (stored_if f line o) [
            | none ↦ none
            | some f' ↦ feed_lines task_dir readable f' lines
          ])
          (with_page line o rest)
  stored_if-Feeds f line lines none rest v more = refl
  stored_if-Feeds f line lines (some true) none v more =
      more (store f line) (store-IsCounted f line v)
  stored_if-Feeds f line lines (some false) none v more = more f v
  stored_if-Feeds f line lines (some false) (some ps) v more = more f v
  stored_if-Feeds f line lines (some true) (some ps) v more =
      let (f', e, h, c, v') = more (store f line) (store-IsCounted f line v) in
      let (h', c') = store-held f line in
      (
        f',
        e,
        h ∙ ap (λ t. t ++ ps) h' ∙ append_assoc (held f) (line ∷ []) ps,
        omega (arith, c, c'),
        v',
      )

  feed_line-Feeds :
      (f : Feed) (l : SeedLine) (lines : List Bytes) (rest : Option (List Bytes))
      → IsCounted f
      → ((g : Feed) → IsCounted g → Feeds g (feed_lines task_dir readable g lines) rest)
      → Feeds f
          (elim (feed_line task_dir readable f l) [
            | none ↦ none
            | some f' ↦ feed_lines task_dir readable f' lines
          ])
          (pages_of l rest)
  feed_line-Feeds f skipped lines rest v more = more f v
  feed_line-Feeds f stray lines rest v more = refl
  feed_line-Feeds f (page line local_file) lines rest v more =
      stored_if-Feeds f line lines (to_parse task_dir readable local_file) rest v more

  feed_lines-Feeds :
      (lines : List Bytes) (f : Feed)
      → IsCounted f
      → Feeds f (feed_lines task_dir readable f lines) (pages lines)
  unfolding feed_lines
  feed_lines-Feeds [] f v = (f, refl, sym (append-nil (held f)), omega arith, v)
  feed_lines-Feeds (line ∷ lines) f v =
      feed_line-Feeds f (seed_line line) lines (pages lines) v (feed_lines-Feeds lines)

  queued :
      (o : Option (List Bytes)) (lines : List Bytes)
      → Feeds empty (feed_lines task_dir readable empty lines) o
      → Queues (send_queue task_dir readable lines) o
  unfolding send_queue
  queued none lines e = rw (e, send_queue)
  queued (some ps) lines (f, e, h, c, w) =
      let (whole, sized) = last_batch-held f f.cur_list w.sized (cur_short f w) in
      let count : f.counter ≡ length ps = omega (arith, c) in
      (
        last_batch f.batches f.cur_list,
        rw (e, send_queue) (ap (λ n. some (last_batch f.batches f.cur_list, n)) count),
        whole ∙ h,
        sized,
      )

  -- `send_queue` queues the pages to parse of the seed file, each once and in the order of the file, in
  -- batches of one to twenty lines, and returns how many there are; if the path of one of them makes
  -- `rtrim` read outside a string, so does `send_queue`.
  pub send_queue-Queues :
      (lines : List Bytes) → Queues (send_queue task_dir readable lines) (pages lines)
  send_queue-Queues lines =
      queued (pages lines) lines
        (feed_lines-Feeds lines empty (record { sized = tt; place = inl (refl, refl) }))
