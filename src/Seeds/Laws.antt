-- ===== src/Seeds/Laws.antt =====
-- The loops of generateInfo against one pass over all pairs of a query and an engine.
use studytest.Base.{
  ◌+◌, ℕ, zero, suc, ◌^◌, ◌<◌, ◌≡◌, ◌≢◌, refl, sym, ap, ◌∙◌, List, [], ◌∷◌, ◌++◌, append_assoc, map,
  some, none, Bool, true, false, Bytes, codes, length, arith, leb, if◌then◌else◌, All, Bool-cases,
  Option-cases, inl, inr,
}
use studytest.UrlCodec.{url_encode}
use studytest.Md5.{to_string, update, reset}
use studytest.Md5.Transform.{bytes_to_hex_string}
use studytest.Md5.Spec.{md5}
use studytest.Md5.Hex.{hashed-text, hashed-size}
use studytest.Seeds.{
  Engine, Stop, throws, overruns, unusable, put_query, snap_dir, seed_text, Seeds, Writing, going,
  halted, write_line, write_one, write_engines, write_queries, write_pages,
}

-- What a pass has told so far: the lines, their number, and why it ended, if it did.
pub data Told : Type 0 where
  tells : List Bytes → ℕ → Told
  ends : Stop → List Bytes → ℕ → Told

abbrev pub view : Writing → Told
view (going s) = tells s.lines s.page_counter
view (halted stop s) = ends stop s.lines s.page_counter

abbrev pub add_line : Bytes → List Bytes → ℕ → Told
add_line line lines n =
    if leb 4096 (length line) then ends overruns lines n else tells (lines ++ line ∷ []) (suc n)

-- Each loop starts with an object whose buffer has its size.
abbrev pub IsReady : Writing → Type 0
IsReady (going s) = length s.md5.buffer ≡ 64
IsReady (halted stop s) = Unit

abbrev pub IsShort : Bytes → Type 0
IsShort query = length query + 63 < 2 ^ 32

write_line-view :
    (line : Bytes) (s : Seeds)
    → length s.md5.buffer ≡ 64
    → (view (write_line line s) ≡ add_line line s.lines s.page_counter)
      × IsReady (write_line line s)
unfolding write_line
write_line-view line s h = elim (Bool-cases (leb 4096 (length line))) [
  | inl long ↦ rw (long, write_line) (refl, tt)
  | inr fits ↦ rw (fits, write_line) (refl, h)
]

-- the name of a query's files
abbrev pub name_of : Bytes → Bytes
name_of query = bytes_to_hex_string (md5 query)

-- the pairs of one query, and of many
abbrev pub pairs : List Engine → List Bytes → List (Bytes × Engine)
pairs engines [] = []
pairs engines (q ∷ queries) = map (λ e. (q, e)) engines ++ pairs engines queries

pairs-append :
    (engines : List Engine) (qs rs : List Bytes)
    → pairs engines (qs ++ rs) ≡ pairs engines qs ++ pairs engines rs
pairs-append engines [] rs = refl
pairs-append engines (q ∷ qs) rs =
    ap (◌++◌ (map (λ e. (q, e)) engines)) (pairs-append engines qs rs)
    ∙ sym (append_assoc (map (λ e. (q, e)) engines) (pairs engines qs) (pairs engines rs))

module _ (get_page : ℕ → List Bytes) where
  -- From this page on, `n` pages have a query, and the next one has none.
  abbrev pub EndsAfter : ℕ → ℕ → Type 0
  EndsAfter page zero = get_page page ≡ []
  EndsAfter page (suc n) = (get_page page ≢ []) × EndsAfter (suc page) n

  -- the queries of these pages
  abbrev pub queries_from : ℕ → ℕ → List Bytes
  queries_from page zero = []
  queries_from page (suc n) = get_page page ++ queries_from (suc page) n

module _ (snapshot task_id : Bytes) (usable : Bytes → Bool) where
  -- one pair, after those before it
  abbrev pub tell : Told → Bytes × Engine → Told
  tell (ends stop lines n) pair = ends stop lines n
  tell (tells lines n) (query, e) = elim (put_query e.url (url_encode query [])) [
    | none ↦ ends throws lines n
    | some eurl ↦
        let snap = snap_dir snapshot task_id e.eid in
        if usable snap
        then add_line
            (seed_text eurl (snap ++ (codes "/" ++ (name_of query ++ codes ".html"))) query
              ++ codes "\n")
            lines n
        else ends unusable lines n
  ]

  abbrev pub tell_all : Told → List (Bytes × Engine) → Told
  tell_all t [] = t
  tell_all t (pair ∷ pairs) = tell_all (tell t pair) pairs

  tell_all-append :
      (t : Told) (ps qs : List (Bytes × Engine))
      → tell_all t (ps ++ qs) ≡ tell_all (tell_all t ps) qs
  tell_all-append t [] qs = refl
  tell_all-append t (p ∷ ps) qs = tell_all-append (tell t p) ps qs

  tell_all-ends :
      (stop : Stop) (lines : List Bytes) (n : ℕ) (ps : List (Bytes × Engine))
      → tell_all (ends stop lines n) ps ≡ ends stop lines n
  tell_all-ends stop lines n [] = refl
  tell_all-ends stop lines n (p ∷ ps) = tell_all-ends stop lines n ps

  write_one-view :
      (e : Engine) (query : Bytes) (s : Seeds)
      → length s.md5.buffer ≡ 64
      → IsShort query
      → (view (write_one snapshot task_id usable e query s)
          ≡ tell (tells s.lines s.page_counter) (query, e))
        × IsReady (write_one snapshot task_id usable e query s)
  unfolding write_one
  write_one-view e query s size short =
      elim (Option-cases (put_query e.url (url_encode query []))) [
        | inl k ↦ rw (k, write_one, tell) (refl, tt)
        | inr (eurl, k) ↦ elim (Bool-cases (usable (snap_dir snapshot task_id e.eid))) [
          | inl yes_usable ↦
              let snap = snap_dir snapshot task_id e.eid in
              let (m, text) = to_string (update (reset s.md5) query) in
              let (v, r) =
                write_line-view
                  (seed_text eurl (snap ++ (codes "/" ++ (text ++ codes ".html"))) query
                    ++ codes "\n")
                  (record s { md5 = m }) (hashed-size s.md5 query size short) in
              rw (k, write_one, tell, yes_usable)
                (
                  v
                      ∙ ap
                          (λ t.
                            add_line
                              (seed_text eurl (snap ++ (codes "/" ++ (t ++ codes ".html"))) query
                                ++ codes "\n")
                              s.lines s.page_counter)
                          (hashed-text s.md5 query size short),
                  r,
                )
          | inr no_use ↦ rw (k, write_one, tell, no_use) (refl, tt)
        ]
      ]

  -- The loop has told of the pairs, and is ready for the next round.
  abbrev Tells : Writing → Writing → List (Bytes × Engine) → Type 0
  Tells w' w ps = (view w' ≡ tell_all (view w) ps) × IsReady w'

  write_engines-Tells :
      (engines : List Engine) (query : Bytes) (w : Writing)
      → IsReady w
      → IsShort query
      → Tells
          (write_engines snapshot task_id usable engines query w)
          w
          (map (λ e. (query, e)) engines)
  unfolding write_engines
  write_engines-Tells engines query (halted stop s) r short =
      (sym (tell_all-ends stop s.lines s.page_counter (map (λ e. (query, e)) engines)), r)
  write_engines-Tells [] query (going s) r short = (refl, r)
  write_engines-Tells (e ∷ engines) query (going s) r short =
      let (v, r') = write_one-view e query s r short in
      let (v', r'') =
        write_engines-Tells engines query (write_one snapshot task_id usable e query s) r' short in
      (v' ∙ ap (λ t. tell_all t (map (λ e. (query, e)) engines)) v, r'')

  write_queries-Tells :
      (engines : List Engine) (queries : List Bytes) (w : Writing)
      → IsReady w
      → All IsShort queries
      → Tells (write_queries snapshot task_id usable engines queries w) w (pairs engines queries)
  unfolding write_queries
  write_queries-Tells engines queries (halted stop s) r short =
      (sym (tell_all-ends stop s.lines s.page_counter (pairs engines queries)), r)
  write_queries-Tells engines [] (going s) r short = (refl, r)
  write_queries-Tells engines (q ∷ queries) (going s) r (hq, short) =
      let (v, r') = write_engines-Tells engines q (going s) r hq in
      let (v', r'') =
        write_queries-Tells engines queries
          (write_engines snapshot task_id usable engines q (going s)) r' short in
      (
        v'
            ∙ ap (λ t. tell_all t (pairs engines queries)) v
            ∙ sym (
                tell_all-append (view (going s)) (map (λ e. (q, e)) engines)
                  (pairs engines queries)),
        r'',
      )

  module _ (engines : List Engine) (get_page : ℕ → List Bytes) where
    last_page : (page : ℕ) (queries : List Bytes) → queries ≡ [] → leb (length queries) 0 ≡ true
    last_page page queries e = rw e

    more_pages : (queries : List Bytes) → queries ≢ [] → leb (length queries) 0 ≡ false
    more_pages [] ne = absurd (ne refl)
    more_pages (q ∷ queries) ne = ground arith

    -- The loop over the pages ends, with fuel for one more page than there are pages with queries, and
    -- what it has written is what one pass over all pairs of a query and an engine tells: a line for each
    -- pair, up to the first pair whose line can not be written. The queries are shorter than 2 ^ 32 - 63
    -- bytes, and the digest object has its buffer of 64 bytes.
    pub write_pages_lem :
        (f n page : ℕ) (w : Writing)
        → n < f
        → EndsAfter get_page page n
        → ((p : ℕ) → All IsShort (get_page p))
        → IsReady w
        → (w' : Writing) × (write_pages snapshot task_id usable engines get_page f page w ≡ some w')
          × (view w' ≡ tell_all (view w) (pairs engines (queries_from get_page page n)))
    unfolding write_pages
    write_pages_lem zero n page w h e short r = absurd (omega arith)
    write_pages_lem (suc f) n page (halted stop s) h e short r = (
      halted stop s,
      refl,
      sym (
          tell_all-ends stop s.lines s.page_counter (pairs engines (queries_from get_page page n))),
    )
    write_pages_lem (suc f) zero page (going s) h e short r =
        let (v, _) = write_queries-Tells engines (get_page page) (going s) r (short page) in
        let last = last_page page (get_page page) e in
        (
          write_queries snapshot task_id usable engines (get_page page) (going s),
          rw (last, write_pages),
          v ∙ ap (λ qs. tell_all (view (going s)) (pairs engines qs)) e,
        )
    write_pages_lem (suc f) (suc n) page (going s) h (ne, e) short r =
        let queries = get_page page in
        let (v, r') = write_queries-Tells engines queries (going s) r (short page) in
        let (w', found, v') =
          write_pages_lem f n (suc page)
            (write_queries snapshot task_id usable engines queries (going s)) (omega arith) e short
            r' in
        let more = more_pages queries ne in
        (
          w',
          rw (more, write_pages) found,
          v'
              ∙ ap (λ t. tell_all t (pairs engines (queries_from get_page (suc page) n))) v
              ∙ sym (
                  tell_all-append (view (going s)) (pairs engines queries)
                    (pairs engines (queries_from get_page (suc page) n)))
              ∙ ap (tell_all (view (going s)))
                  (sym (pairs-append engines queries (queries_from get_page (suc page) n))),
        )
