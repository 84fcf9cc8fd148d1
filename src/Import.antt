-- ===== src/Import.antt =====
-- down_parse_client/clientConfig.cpp: import_item_file, import_db and check_parse_fail, which take the items
-- that the parser has sent to the database, and delete those whose query has no rows. The file system, the
-- reader of JSON and the rows of the database are parameters. A file is the list of what `fgets` fills its
-- buffer with. What a call of `db->execute` returns is not looked at.
pub mod Once
pub mod Again
pub mod Insert
pub mod Passes
mod Tests
use studytest.Base.{
  ℕ, zero, suc, List, [], ◌∷◌, ◌++◌, map, Option, some, none, Bool, true, false, ◌&&◌, Bytes, codes,
  length, leb, if◌then◌else◌, same, ℤ, is_zero, pos, negsuc, ◌==◌,
}
use studytest.Strings.{Outcome, leaves, strays, hangs, rtrim, explode}
use studytest.Md5.{Md5, reset, update, to_string}
use studytest.Config.Item.{Item, kept, found, item_path, get_engine_item}
use studytest.Config.Item
use studytest.DownFeed.{SeedLine, skipped, stray, page, seed_line}
use studytest.Sql.{Statement, left_over}

-- one entry of the list of an item; each field is a text
pub record Row : Type 0 where
  pub rank : Bytes
  pub url : Bytes
  pub raw_url : Bytes
  pub docid : Bytes
  pub title : Bytes

-- What the reader of JSON makes of an item. `rows` is the list of `errmsg`, if there is one.
pub record Root : Type 0 where
  pub is_member : Bytes → Bool
  pub as_int : Bytes → ℤ
  pub rows : Option (List Row)

-- `access` for reading, what a file holds if it can be opened, and the reader of JSON
pub record Outside : Type 0 where
  pub readable : Bytes → Bool
  pub file : Bytes → Option (List Bytes)
  pub read_json : Bytes → Option Root

-- `in_db_item`, a set, and the statements handed to `execute`, each with the item file for which it is
pub record Imports : Type 0 where
  pub in_db_item : List Bytes
  pub deletes : List (Bytes × Statement)
  pub inserts : List (Bytes × Statement)

-- `in_db_item.find(item_file) != in_db_item.end()`
unfoldable pub in_db : List Bytes → Bytes → Bool
in_db [] item_file = false
in_db (i ∷ is) item_file = let rest = in_db is item_file in if same i item_file then true else rest

-- `item` behind the loop over the file
unfoldable pub join_lines : List Bytes → Bytes
join_lines [] = []
join_lines (line ∷ lines) = line ++ join_lines lines

-- `errno` and `errmsg` are there, and `errno` is 0
abbrev pub is_good : Root → Bool
is_good root =
    (root.is_member (codes "errno") && root.is_member (codes "errmsg"))
    && is_zero (root.as_int (codes "errno"))

-- the parameters of one row, `url.size() > 0 ? url : raw_url` among them
abbrev pub url_of : Bytes → Bytes → Bytes
url_of [] raw_url = raw_url
url_of (c ∷ url) raw_url = c ∷ url

abbrev pub row_params : Bytes → Bytes → Bytes → Row → List Bytes
row_params task_id engine_id query r =
    task_id ∷ engine_id ∷ query ∷ r.rank ∷ url_of r.url r.raw_url ∷ r.docid ∷ r.title ∷ [] ∷ []

abbrev pub insert_head : Bytes
insert_head =
    codes
      "INSERT INTO `tb_dcg_data_list` (`task_id`,`engine`,`query`,`rank`,`url`,`docid`,`title`,`realurl`) VALUES "

-- the loop over the rows
unfoldable pub add_rows : Bytes → Bytes → Bytes → List Row → Statement → Statement
add_rows task_id engine_id query [] st = st
add_rows task_id engine_id query (r ∷ rows) (sql, params) =
    add_rows task_id engine_id query rows
      (sql ++ codes "(?,?,?,?,?,?,?,?),", params ++ row_params task_id engine_id query r)

abbrev pub delete_statement : Bytes → Bytes → Bytes → Statement
delete_statement task_id engine_id query = (
  codes "DELETE FROM `tb_dcg_data_list` WHERE `task_id`=? AND `engine`=? AND `query`=?",
  task_id ∷ engine_id ∷ query ∷ [],
)

-- `rtrim(exec_sql, ",")`, behind the loop
abbrev pub trimmed : Statement → Option Statement
trimmed (sql, params) = elim (left_over (rtrim sql (codes ","))) [
  | none ↦ none
  | some s ↦ some (s, params)
]

unfoldable pub insert_statement : Bytes → Bytes → Bytes → List Row → Option Statement
unfolding add_rows
insert_statement task_id engine_id query rows =
    trimmed (add_rows task_id engine_id query rows (insert_head, []))

-- the two statements for an item; the second one only if there is a row
unfoldable pub store_rows : Bytes → Bytes → Bytes → Bytes → List Row → Imports → Option Imports
store_rows task_id engine_id item_file query [] s =
    some (record s {
      deletes = s.deletes ++ (item_file, delete_statement task_id engine_id query) ∷ [];
    })
store_rows task_id engine_id item_file query (r ∷ rows) s =
    elim (insert_statement task_id engine_id query (r ∷ rows)) [
      | none ↦ none
      | some st ↦ some (record s {
        in_db_item = item_file ∷ s.in_db_item;
        deletes = s.deletes ++ (item_file, delete_statement task_id engine_id query) ∷ [];
        inserts = s.inserts ++ (item_file, st) ∷ [];
      })
    ]

module _ (task_dir task_id : Bytes) (out : Outside) where
  -- behind the reading of the item: a return on each thing that is missing
  unfoldable pub store_root : Bytes → Bytes → Bytes → Option Root → Imports → Option Imports
  store_root engine_id item_file query none s = some s
  store_root engine_id item_file query (some root) s =
      if is_good root
      then (elim root.rows [
        | none ↦ some s
        | some rows ↦ store_rows task_id engine_id item_file query rows s
      ])
      else some s

  abbrev pub store_file : Bytes → Bytes → Bytes → Option (List Bytes) → Imports → Option Imports
  store_file engine_id item_file query none s = some s
  store_file engine_id item_file query (some lines) s =
      store_root engine_id item_file query (out.read_json (join_lines lines)) s

  unfoldable pub store_item : Bytes → Bytes → Bytes → Imports → Option Imports
  store_item engine_id item_file query s =
      if out.readable item_file
      then store_file engine_id item_file query (out.file item_file) s
      else some s

  -- `import_item_file`; `none` is a read outside a string
  abbrev pub import_item : Bytes → Item → Imports → Option Imports
  import_item query kept s = store_item [] [] query s
  import_item query Item.stray s = none
  import_item query (found engine_id item_file) s = store_item engine_id item_file query s

  -- `import_db` looks whether the item of a line is in the set before it calls `import_item_file`
  unfoldable pub import_new : Bytes → Item → Imports → Option Imports
  unfolding in_db
  import_new query kept s = if in_db s.in_db_item [] then some s else import_item query kept s
  import_new query Item.stray s = none
  import_new query (found engine_id item_file) s =
      if in_db s.in_db_item item_file
      then some s
      else import_item query (found engine_id item_file) s

  -- `items[2]`
  abbrev pub third : List Bytes → Bytes
  third [] = []
  third (a ∷ []) = []
  third (a ∷ (b ∷ [])) = []
  third (a ∷ (b ∷ (c ∷ more))) = c

  abbrev pub import_line : SeedLine → Imports → Option Imports
  import_line skipped s = some s
  import_line stray s = none
  import_line (page line local_file) s =
      import_new (third (explode line (codes "\t") [])) (get_engine_item task_dir local_file) s

  -- the loop over the seed file
  unfoldable pub import_lines : List Bytes → Imports → Option Imports
  import_lines [] s = some s
  import_lines (line ∷ lines) s = elim (import_line (seed_line line) s) [
    | none ↦ none
    | some s' ↦ import_lines lines s'
  ]

-- the loop over the queries that the database gives, and in it the one over the engines
unfoldable pub item_files : Bytes → Bytes → List (Bytes × Bytes) → List Bytes → Md5 → List Bytes
item_files task_dir task_id engine_info [] m = []
item_files task_dir task_id engine_info (query ∷ queries) m =
    let (m', md5v) = to_string (update (reset m) query) in
    map (λ e. item_path task_dir (task_id ++ (codes "_" ++ e.0)) md5v) engine_info
    ++ item_files task_dir task_id engine_info queries m'

-- the set at the beginning of a pass: it is filled if it is empty
unfoldable pub fill : List Bytes → List Bytes → List Bytes
fill [] items = items
fill (i ∷ is) items = i ∷ is

-- `import_db`: `queries` are those of the task with rows in the database, `lines` the seed file, if it can be
-- opened
unfoldable pub import_db :
    Bytes
    → Bytes
    → List (Bytes × Bytes)
    → Md5
    → Outside
    → List Bytes
    → Option (List Bytes)
    → Imports
    → Option Imports
unfolding import_lines fill item_files
import_db task_dir task_id engine_info md5 out queries lines s =
    let filled = record s {
      in_db_item = fill s.in_db_item (item_files task_dir task_id engine_info queries md5);
    } in
    elim lines [ none ↦ some filled | some ls ↦ import_lines task_dir task_id out ls filled ]

-- `check_parse_fail`: the files that it unlinks, for the queries without rows
unfoldable pub check_parse_fail :
    Bytes → Bytes → List (Bytes × Bytes) → Md5 → List Bytes → List Bytes
unfolding item_files
check_parse_fail task_dir task_id engine_info md5 queries =
    item_files task_dir task_id engine_info queries md5
