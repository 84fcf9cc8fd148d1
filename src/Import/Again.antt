-- ===== src/Import/Again.antt =====
-- What `check_parse_fail` makes of the pages whose query has no rows.
use studytest.Base.{
  ◌≡◌, refl, List, ◌∷◌, ◌++◌, some, Bool, true, false, Bytes, codes, if◌then◌else◌, length, All,
}
use studytest.Strings.Split.{Lacks}
use studytest.Md5.{Md5}
use studytest.Seeds.{snap_dir}
use studytest.Seeds.Laws.{name_of, IsShort}
use studytest.Seeds.Lines.{get_engine_item-found}
use studytest.ParseFeed.{to_parse}
use studytest.Import.{in_db, check_parse_fail}
use studytest.Import.Passes.{item_files-in_db}

-- the disk behind `unlink`s that succeed
abbrev pub without : (Bytes → Bool) → List Bytes → Bytes → Bool
without readable removed path = if in_db removed path then false else readable path

-- Behind `check_parse_fail` the next pass of `send_queue` has the pages of each query that has no rows to
-- parse, on every engine, whatever files are there, if the `unlink` of each item file that is there succeeds.
-- Neither the task's number nor the engine's holds a slash or an underscore, a query is shorter than 2 ^ 32 - 63
-- bytes, and the object's buffer has its 64.
pub check_parse_fail-to_parse :
    (task_dir snapshot task_id : Bytes) (engine_info : List (Bytes × Bytes))
    (readable : Bytes → Bool) (m : Md5) (before : List Bytes) (query : Bytes) (more : List Bytes)
    (es : List (Bytes × Bytes)) (e : Bytes × Bytes) (fs : List (Bytes × Bytes))
    → engine_info ≡ es ++ e ∷ fs
    → length m.buffer ≡ 64
    → All IsShort (before ++ query ∷ more)
    → Lacks (codes "_") task_id
    → Lacks (codes "_") e.0
    → Lacks (codes "/") task_id
    → Lacks (codes "/") e.0
    → let removed = check_parse_fail task_dir task_id engine_info m (before ++ query ∷ more) in
      let path = snap_dir snapshot task_id e.0 ++ (codes "/" ++ (name_of query ++ codes ".html")) in
      to_parse task_dir (without readable removed) path ≡ some true
unfolding to_parse check_parse_fail
check_parse_fail-to_parse task_dir snapshot task_id engine_info readable m before query more es e fs
      split size shorts ut ue st se =
    let found_it = get_engine_item-found task_dir snapshot task_id e.0 query ut ue st se in
    let gone =
      item_files-in_db task_dir task_id engine_info before query more es e fs m split size shorts in
    rw (found_it, to_parse) (rw gone refl)
