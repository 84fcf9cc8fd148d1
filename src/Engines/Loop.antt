-- ===== src/Engines/Loop.antt =====
-- The loop over the engines of a task.
use studytest.Base.{
  ℕ, ◌≡◌, refl, sym, ap, ◌∙◌, List, [], ◌∷◌, ◌++◌, append_assoc, append-nil, map, Option, some,
  none, Bool, true, false, ◌||◌, Bytes, codes, length, leb, All, All-append,
}
use studytest.Base.Maps.{less}
use studytest.Base.Maps.Order.{IsBefore, IsSorted, put-last}
use studytest.Sql.{Fields}
use studytest.Engines.{
  field, engine_name, Action, going, task_tmp, dir_actions, make_dir, prepare_engine,
  prepare_engines,
}

-- the name that an engine gets; a name that is not known does not come up here
abbrev pub name_or : Option Bytes → Bytes
name_or none = []
name_or (some name) = name

abbrev pub name_of : Fields → Bytes
name_of row = name_or (engine_name (field (codes "name") row))

-- the pair that an engine of the list becomes
abbrev pub info_of : Bytes × Fields → Bytes × Bytes
info_of (k, row) = (k, name_of row)

module _ (task_dir task_id : Bytes) (is_retry : ℕ) (writable makes : Bytes → Bool) where
  -- An engine that the loop gets past: it is listed under its number, its name is known, and its directory
  -- fits in its buffer and is there or can be made.
  pub record IsFine (e : Bytes × Fields) : Type 0 where
    pub listed : field (codes "eid") e.1 ≡ e.0
    pub name : Bytes
    pub known : engine_name (field (codes "name") e.1) ≡ some name
    pub fits : leb 255 (length (task_tmp task_dir task_id is_retry writable makes e.0)) ≡ false
    pub usable :
        (writable (task_tmp task_dir task_id is_retry writable makes e.0)
          || makes (task_tmp task_dir task_id is_retry writable makes e.0))
        ≡ true

  -- what is done for the engines
  abbrev pub actions_of : List (Bytes × Fields) → List Action
  actions_of [] = []
  actions_of ((k, row) ∷ rows) =
      dir_actions task_dir task_id is_retry writable makes
        (task_tmp task_dir task_id is_retry writable makes k)
      ++ actions_of rows

  prepare_engine-IsFine :
      (k : Bytes) (row : Fields) (info : List (Bytes × Bytes)) (done : List Action)
      → IsFine (k, row)
      → All (λ e. less e.0 k ≡ true) info
      → prepare_engine task_dir task_id is_retry writable makes row info done
        ≡ going (info ++ info_of (k, row) ∷ []) (
            done
            ++ dir_actions task_dir task_id is_retry writable makes
                (task_tmp task_dir task_id is_retry writable makes k))
  unfolding prepare_engine make_dir
  prepare_engine-IsFine k row info done f before =
      rw (f.known, prepare_engine)
        (rw f.listed (rw (f.fits) (rw f.usable (rw (put-last k f.name info before) refl))))

  -- the engines that were taken are before those to come
  abbrev Behind : List (Bytes × Bytes) → List (Bytes × Fields) → Type 0
  Behind info rows = All (λ i. IsBefore i.0 rows) info

  Behind-first :
      (info : List (Bytes × Bytes)) (k : Bytes) (row : Fields) (rows : List (Bytes × Fields))
      → Behind info ((k, row) ∷ rows)
      → All (λ e. less e.0 k ≡ true) info × Behind info rows
  Behind-first [] k row rows h = (tt, tt)
  Behind-first (i ∷ info) k row rows ((first, later), h) =
      let (firsts, laters) = Behind-first info k row rows h in ((first, firsts), (later, laters))

  prepare_engines-append :
      (rows more : List (Bytes × Fields)) (info : List (Bytes × Bytes)) (done : List Action)
      → All IsFine rows
      → IsSorted rows
      → Behind info rows
      → prepare_engines task_dir task_id is_retry writable makes (rows ++ more) (going info done)
        ≡ prepare_engines task_dir task_id is_retry writable makes more
            (going (info ++ map info_of rows) (done ++ actions_of rows))
  unfolding prepare_engines
  prepare_engines-append [] more info done f sorted behind =
      ap (prepare_engines task_dir task_id is_retry writable makes more) (
        ap (λ t. going t done) (sym (append-nil info))
        ∙ ap (going (info ++ [])) (sym (append-nil done)))
  prepare_engines-append ((k, row) ∷ rows) more info done (fine, f) (before, sorted) behind =
      let (firsts, laters) = Behind-first info k row rows behind in
      let dir =
        dir_actions task_dir task_id is_retry writable makes
          (task_tmp task_dir task_id is_retry writable makes k) in
      let one = info_of (k, row) ∷ [] in
      ap (prepare_engines task_dir task_id is_retry writable makes (rows ++ more))
        (prepare_engine-IsFine k row info done fine firsts)
      ∙ prepare_engines-append rows more (info ++ one) (done ++ dir) f sorted
          (All-append (λ i. IsBefore i.0 rows) info one laters (before, tt))
      ∙ ap
          (λ t.
            prepare_engines task_dir task_id is_retry writable makes more
              (going t ((done ++ dir) ++ actions_of rows)))
          (append_assoc info one (map info_of rows))
      ∙ ap
          (λ t.
            prepare_engines task_dir task_id is_retry writable makes more
              (going (info ++ map info_of ((k, row) ∷ rows)) t))
          (append_assoc done dir (actions_of rows))

  pub prepare_engines-going :
      (rows : List (Bytes × Fields)) (done : List Action)
      → All IsFine rows
      → IsSorted rows
      → prepare_engines task_dir task_id is_retry writable makes rows (going [] done)
        ≡ going (map info_of rows) (done ++ actions_of rows)
  unfolding prepare_engines
  prepare_engines-going rows done f sorted =
      ap (λ t. prepare_engines task_dir task_id is_retry writable makes t (going [] done))
        (sym (append-nil rows))
      ∙ prepare_engines-append rows [] [] done f sorted tt
