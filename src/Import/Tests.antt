-- ===== src/Import/Tests.antt =====
-- The imports of a concrete task, and the theorems about them there.
use studytest.Base.{
  if◌then◌else◌, ◌≡◌, ◌≤◌, ◌+◌, ◌*◌, refl, [], ◌∷◌, ◌++◌, List, some, true, false, Bytes, codes,
  length, replicate, pos, arith,
}
use studytest.Strings.{rtrim, trim, explode}
use studytest.Md5.Transform.{bytes_to_hex_string, encode, transform}
use studytest.Md5.{Md5, initial, update, to_string, reset, final}
use studytest.Config.Item.{get_engine_item}
use studytest.DownFeed.{seed_line}
use studytest.Seeds.{snap_dir}
use studytest.Seeds.Laws.{name_of}
use studytest.Sql.{Statement}
use studytest.Sql.Marks.{plain, marks_from}
use studytest.Sql.Execute.{Mysql, execute}
use studytest.ParseFeed.{to_parse}
use studytest.Import.{
  Row, Root, Outside, Imports, in_db, insert_statement, store_rows, store_root, store_item,
  import_new, import_db, item_files, check_parse_fail, join_lines,
}
use studytest.Import.Once.{times}
use studytest.Import.Insert.{insert_statement-execute}
use studytest.Import.Passes.{item_of, Passes, Passes-once, import_db-skips}
use studytest.Import.Again.{without, check_parse_fail-to_parse}

abbrev row : Row
row = record {
  rank = codes "1";
  url = [];
  raw_url = codes "http://r";
  docid = codes "9";
  title = codes "t";
}

abbrev good : Root
good = record { is_member = λ k. true; as_int = λ k. pos 0; rows = some (row ∷ []) }

-- every file can be read and holds an item with one row
abbrev out : Outside
out = record {
  readable = λ path. true;
  file = λ path. some (codes "{}\n" ∷ []);
  read_json = λ text. some good;
}

abbrev server : Mysql
server = record {
  prepares = λ sql. true;
  param_count = λ sql. marks_from plain sql;
  binds = λ params. true;
  runs = λ st. true;
  affected_rows = λ st. pos 1;
  insert_id = λ st. pos 7;
}

insert_statement-execute_example :
    (st : Statement) × (insert_statement (codes "7") (codes "3") (codes "q") (row ∷ row ∷ [])
      ≡ some st)
    × (length st.1 ≡ 8 * length (row ∷ row ∷ []))
    × (execute server st ≡ (server.affected_rows st, st ∷ []))
insert_statement-execute_example =
    insert_statement-execute server (codes "7") (codes "3") (codes "q") row (row ∷ [])
      (λ st e. refl) (λ st e. refl) (λ st e. refl) (λ st e. refl)

abbrev fresh : Md5
fresh = record {
  state = initial;
  count0 = 0;
  count1 = 0;
  buffer = replicate 64 0;
  digest_bytes = replicate 16 0;
  finished = false;
}

abbrev engines : List (Bytes × Bytes)
engines = (codes "3", codes "baidu") ∷ []

abbrev none_yet : Imports
none_yet = record { in_db_item = []; deletes = []; inserts = [] }

abbrev item : Bytes
item = codes "/t/7_3/a.item"

abbrev imported : Imports
imported = record {
  in_db_item = item ∷ [];
  deletes =
      (
        item,
        (
          codes "DELETE FROM `tb_dcg_data_list` WHERE `task_id`=? AND `engine`=? AND `query`=?",
          codes "7" ∷ codes "3" ∷ codes "q" ∷ [],
        ),
      )
      ∷ [];
  inserts =
      (
        item,
        (
          codes
              "INSERT INTO `tb_dcg_data_list` (`task_id`,`engine`,`query`,`rank`,`url`,`docid`,`title`,`realurl`) VALUES (?,?,?,?,?,?,?,?)",
          codes "7"
              ∷ codes "3"
              ∷ codes "q"
              ∷ codes "1"
              ∷ codes "http://r"
              ∷ codes "9"
              ∷ codes "t"
              ∷ []
              ∷ [],
        ),
      )
      ∷ [];
}

-- the same line twice
abbrev seeds : List Bytes
seeds = codes "http://e\t/s/7_3/a.html\tq\n" ∷ codes "http://e\t/s/7_3/a.html\tq\n" ∷ []

one_pass :
    import_db (codes "/t") (codes "7") engines fresh out [] (some seeds) none_yet ≡ some imported
unfolding import_db import_new in_db store_item store_root store_rows insert_statement join_lines
    seed_line get_engine_item trim rtrim explode
one_pass = refl

Passes-once_example :
    times item imported.inserts
    ≤ times item none_yet.inserts + (if in_db none_yet.in_db_item item then 0 else 1) + 1
Passes-once_example =
    Passes-once (codes "/t") (codes "7") engines none_yet 1 (record imported { in_db_item = [] })
      (Passes.clear (Passes.next out fresh [] (some seeds) Passes.here one_pass)) item

abbrev known : Imports
known = record none_yet {
  in_db_item = item_files (codes "/t") (codes "7") engines (codes "q" ∷ []) fresh;
}

-- The item is of another engine than the rows that the database has of its query.
abbrev its_seed : List Bytes
its_seed = codes "http://e\t/s/7_3/7694f4a66316e53c8cdd9d9954bd611d.html\tq\n" ∷ []

skipped_item :
    import_db (codes "/t") (codes "7") engines fresh out (codes "q" ∷ []) (some its_seed) none_yet
    ≡ some known
unfolding import_db import_new in_db seed_line get_engine_item trim rtrim explode to_string update
    bytes_to_hex_string reset final encode transform
skipped_item = refl

import_db-skips_example :
    let i = item_of (codes "/t") (codes "7") (codes "3") (codes "q") in
    times i known.inserts ≡ times i none_yet.inserts
import_db-skips_example =
    import_db-skips (codes "/t") (codes "7") engines out fresh (some its_seed) none_yet known []
      (codes "q") [] [] (codes "3", codes "baidu") [] refl refl refl (omega arith, tt) skipped_item

check_parse_fail-to_parse_example :
    let removed = check_parse_fail (codes "/t") (codes "7") engines fresh (codes "q" ∷ []) in
    let path =
      snap_dir (codes "/s") (codes "7") (codes "3")
      ++ (codes "/" ++ (name_of (codes "q") ++ codes ".html")) in
    to_parse (codes "/t") (without (λ p. true) removed) path ≡ some true
check_parse_fail-to_parse_example =
    check_parse_fail-to_parse (codes "/t") (codes "/s") (codes "7") engines (λ p. true) fresh []
      (codes "q") [] [] (codes "3", codes "baidu") [] refl refl (omega arith, tt) refl refl refl
      refl
