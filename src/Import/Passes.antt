-- ===== src/Import/Passes.antt =====
-- `import_db` as a whole, once and again.
use studytest.Base.{
  ℕ, suc, ◌+◌, ◌≤◌, ◌≡◌, refl, ap, ◌∙◌, List, [], ◌∷◌, ◌++◌, map, Option, some, none, Bool, true,
  false, Bytes, codes, if◌then◌else◌, same, length, All, Bool-cases, inl, inr, arith,
}
use mathlib.Core.Path.{subst}
use studytest.Md5.{Md5, reset, update, to_string}
use studytest.Md5.Hex.{hashed-text, hashed-size}
use studytest.Config.Item.{item_path}
use studytest.Seeds.Laws.{name_of, IsShort}
use studytest.Import.{Outside, Imports, in_db, item_files, fill, import_db}
use studytest.Import.Once.{
  times, Keeps, AlsoKeeps, Keeps-trans, lines-Keeps, in_db-here, in_db-there,
}

in_db-append_left : (f : Bytes) (is js : List Bytes) → in_db is f ≡ true → in_db (is ++ js) f ≡ true
unfolding in_db
in_db-append_left f [] js h = cc
in_db-append_left f (i ∷ is) js h = elim (Bool-cases (same i f)) [
  | inl e ↦ rw e refl
  | inr n ↦ rw n (in_db-append_left f is js (rw n at h))
]

in_db-append_right :
    (f : Bytes) (is js : List Bytes) → in_db js f ≡ true → in_db (is ++ js) f ≡ true
in_db-append_right f [] js h = h
in_db-append_right f (i ∷ is) js h = in_db-there i f (is ++ js) (in_db-append_right f is js h)

-- the item file of a query on an engine
abbrev pub item_of : Bytes → Bytes → Bytes → Bytes → Bytes
item_of task_dir task_id eid query =
    item_path task_dir (task_id ++ (codes "_" ++ eid)) (name_of query)

engine-in_db :
    (f : Bytes × Bytes → Bytes) (es : List (Bytes × Bytes)) (e : Bytes × Bytes)
    (more : List (Bytes × Bytes))
    → in_db (map f (es ++ e ∷ more)) (f e) ≡ true
engine-in_db f [] e more = in_db-here (f e) (map f more)
engine-in_db f (e' ∷ es) e more =
    in_db-there (f e') (f e) (map f (es ++ e ∷ more)) (engine-in_db f es e more)

module _ (task_dir task_id : Bytes) (engine_info : List (Bytes × Bytes)) where
  -- Each query stands for its items on all engines, whatever the object has digested before.
  item_files-cons :
      (query : Bytes) (queries : List Bytes) (m : Md5)
      → length m.buffer ≡ 64
      → IsShort query
      → (m' : Md5) × (length m'.buffer ≡ 64)
        × (item_files task_dir task_id engine_info (query ∷ queries) m
            ≡ map (λ e. item_of task_dir task_id e.0 query) engine_info
              ++ item_files task_dir task_id engine_info queries m')
  unfolding item_files
  item_files-cons query queries m size short = (
    (to_string (update (reset m) query)).0,
    hashed-size m query size short,
    ap
        (λ (name : Bytes).
          map (λ (e : Bytes × Bytes). item_path task_dir (task_id ++ (codes "_" ++ e.0)) name)
            engine_info
          ++ item_files task_dir task_id engine_info queries (to_string (update (reset m) query)).0)
        (hashed-text m query size short),
  )

  -- Every item of a query that the database knows is in the set.
  pub item_files-in_db :
      (before : List Bytes) (query : Bytes) (more : List Bytes) (es : List (Bytes × Bytes))
      (e : Bytes × Bytes) (fs : List (Bytes × Bytes)) (m : Md5)
      → engine_info ≡ es ++ e ∷ fs
      → length m.buffer ≡ 64
      → All IsShort (before ++ query ∷ more)
      → in_db
          (item_files task_dir task_id engine_info (before ++ query ∷ more) m)
          (item_of task_dir task_id e.0 query)
        ≡ true
  item_files-in_db [] query more es e fs m split size (short, shorts) =
      let (m', size', form) = item_files-cons query more m size short in
      let item = λ (e : Bytes × Bytes). item_of task_dir task_id e.0 query in
      ap (λ t. in_db t (item e)) form
      ∙ in_db-append_left (item e) (map item engine_info)
          (item_files task_dir task_id engine_info more m')
          (ap (λ t. in_db (map item t) (item e)) split ∙ engine-in_db item es e fs)
  item_files-in_db (q ∷ before) query more es e fs m split size (short, shorts) =
      let (m', size', form) = item_files-cons q (before ++ query ∷ more) m size short in
      let item = λ (e : Bytes × Bytes). item_of task_dir task_id e.0 q in
      ap (λ t. in_db t (item_of task_dir task_id e.0 query)) form
      ∙ in_db-append_right (item_of task_dir task_id e.0 query) (map item engine_info)
          (item_files task_dir task_id engine_info (before ++ query ∷ more) m')
          (item_files-in_db before query more es e fs m' split size' shorts)

  abbrev filled : Md5 → List Bytes → Imports → Imports
  filled m queries s = record s {
    in_db_item = fill s.in_db_item (item_files task_dir task_id engine_info queries m);
  }

  -- the pass, behind the filling of the set
  import_db-AlsoKeeps :
      (out : Outside) (m : Md5) (queries : List Bytes) (lines : Option (List Bytes)) (s : Imports)
      → AlsoKeeps
          (filled m queries s)
          (import_db task_dir task_id engine_info m out queries lines s)
  unfolding import_db
  import_db-AlsoKeeps out m queries none s = record {
    grows = λ f h. h;
    not_again = λ f h. refl;
    once = λ f. omega arith;
  }
  import_db-AlsoKeeps out m queries (some ls) s =
      lines-Keeps task_dir task_id out ls (filled m queries s)

  filled-Keeps : (m : Md5) (queries : List Bytes) (s : Imports) → Keeps s (filled m queries s)
  filled-Keeps m queries s = record {
    grows = λ f h. go s.in_db_item f h;
    not_again = λ f h. refl;
    once = λ f. omega arith;
  }
    where
      go :
          (is : List Bytes) (f : Bytes)
          → in_db is f ≡ true
          → in_db (fill is (item_files task_dir task_id engine_info queries m)) f ≡ true
      go [] f h = unfold in_db in cc
      go (i ∷ is) f h = unfold fill in h

  import_db-Keeps :
      (out : Outside) (m : Md5) (queries : List Bytes) (lines : Option (List Bytes)) (s t : Imports)
      → import_db task_dir task_id engine_info m out queries lines s ≡ some t
      → Keeps s t
  import_db-Keeps out m queries lines s t e =
      Keeps-trans (filled-Keeps m queries s)
        (subst (AlsoKeeps (filled m queries s)) e (import_db-AlsoKeeps out m queries lines s))

  -- The calls of `import_db` for a task, one after the other, with what they find outside; and the clearing of
  -- the set, which task_func does before the last call. The number counts the clearings.
  pub data Passes (s : Imports) : ℕ → Imports → Type 0 where
    here : Passes s 0 s
    next :
        {n : ℕ} {t u : Imports} (out : Outside) (m : Md5) (queries : List Bytes)
        (lines : Option (List Bytes))
        → Passes s n t
        → import_db task_dir task_id engine_info m out queries lines t ≡ some u
        → Passes s n u
    clear : {n : ℕ} {t : Imports} → Passes s n t → Passes s (suc n) (record t { in_db_item = [] })

  -- how often an item was inserted, and once more if it is not in the set
  abbrev due : Bytes → Imports → ℕ
  due f s = times f s.inserts + (if in_db s.in_db_item f then 0 else 1)

  Keeps-due : (s t : Imports) (f : Bytes) → Keeps s t → due f t ≤ due f s
  Keeps-due s t f k = elim (Bool-cases (in_db s.in_db_item f)) [
    | inl there ↦ rw (there, k.grows f there) (let same_times = k.not_again f there in omega arith)
    | inr absent ↦ rw absent (at_most (in_db t.in_db_item f) (k.once f))
  ]
    where
      at_most :
          (b : Bool)
          → times f t.inserts ≤ times f s.inserts + (if b then 1 else 0)
          → times f t.inserts + (if b then 0 else 1) ≤ times f s.inserts + 1
      at_most true h = omega arith
      at_most false h = omega arith

  Passes-due :
      {s : Imports} {n : ℕ} {t : Imports} (f : Bytes) → Passes s n t → due f t ≤ due f s + n
  unfolding in_db
  Passes-due f here = omega arith
  Passes-due f (next {n} {t} {u} out m queries lines r e) =
      let before = Passes-due f r in
      let step = Keeps-due t u f (import_db-Keeps out m queries lines t u e) in omega arith
  Passes-due f (clear {n} {t} r) = let before = Passes-due f r in omega arith

  -- However often the seed file is passed over, and whatever has become of the files in between: an item that
  -- is not in the set is inserted at most once, and an item that is in the set not at all; with each time that
  -- the set is cleared in between it may be inserted once more.
  pub Passes-once :
      (s : Imports) (n : ℕ) (t : Imports)
      → Passes s n t
      → (f : Bytes)
      → times f t.inserts ≤ times f s.inserts + (if in_db s.in_db_item f then 0 else 1) + n
  Passes-once s n t r f = let h = Passes-due f r in omega arith

  -- With the set cleared, as task_func leaves it before the last pass: an item whose query has any row in the
  -- database is not inserted, also if the rows are all of other engines. A query is shorter than 2 ^ 32 - 63 bytes,
  -- and the object's buffer has its 64.
  pub import_db-skips :
      (out : Outside) (m : Md5) (lines : Option (List Bytes)) (s t : Imports) (before : List Bytes)
      (query : Bytes) (more : List Bytes) (es : List (Bytes × Bytes)) (e : Bytes × Bytes)
      (fs : List (Bytes × Bytes))
      → s.in_db_item ≡ []
      → engine_info ≡ es ++ e ∷ fs
      → length m.buffer ≡ 64
      → All IsShort (before ++ query ∷ more)
      → import_db task_dir task_id engine_info m out (before ++ query ∷ more) lines s ≡ some t
      → let item = item_of task_dir task_id e.0 query in times item t.inserts ≡ times item s.inserts
  import_db-skips out m lines s t before query more es e fs cleared split size shorts run =
      let queries = before ++ query ∷ more in
      let k =
        subst (AlsoKeeps (filled m queries s)) run (import_db-AlsoKeeps out m queries lines s) in
      k.not_again (item_of task_dir task_id e.0 query) (
        ap
          (λ is.
            in_db (fill is (item_files task_dir task_id engine_info queries m))
              (item_of task_dir task_id e.0 query))
          cleared
        ∙ unfold fill in item_files-in_db before query more es e fs m split size shorts)
