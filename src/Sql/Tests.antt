-- ===== src/Sql/Tests.antt =====
-- SQL statements for concrete fields and conditions.
use studytest.Base.{true, ◌≤◌, pos, negsuc, ◌≡◌, refl, [], ◌∷◌, some, map, List, Bytes, codes}
use studytest.Strings.{trim_char, rtrim}
use studytest.Strings.Split.{join}
use studytest.Sql.Assign.{assignment, value, format_sql-join}
use studytest.Sql.Marks.{plain, marks_from}
use studytest.Sql.Conditions.{Makes, likes, HasColumns}
use studytest.Sql.Where.{format_where_cond-Makes}
use studytest.Sql.Execute.{Mysql, update_rows}
use studytest.Sql.Execute.Laws.{update_rows_lem}
use studytest.Sql.{split_key, where_clause, Conditions, format_sql, format_where_cond, update}

abbrev conditions : Conditions
conditions =
    (codes "id:gt", codes "3" ∷ [])
    ∷ (codes "list:find", codes "liu" ∷ [])
    ∷ (codes "name:like", codes "wen" ∷ [])
    ∷ (codes "status:in", codes "1" ∷ codes "2" ∷ [])
    ∷ (codes "tid", codes "7" ∷ [])
    ∷ []

where_five :
    format_where_cond conditions
    ≡ some (
      codes
          "`id`>? AND  FIND_IN_SET(?,`list`) AND `name` LIKE '%?%' AND `status` IN (?,?) AND `tid`=?",
      codes "3" ∷ codes "liu" ∷ codes "wen" ∷ codes "1" ∷ codes "2" ∷ codes "7" ∷ [],
    )
unfolding format_where_cond trim_char rtrim
where_five = refl

update_status :
    update
      (codes "tb_dcg_task")
      ((codes "status", codes "2") ∷ [])
      ((codes "tid", codes "9" ∷ []) ∷ [])
    ≡ some (codes "UPDATE `tb_dcg_task` SET `status`=? WHERE `tid`=?", codes "2" ∷ codes "9" ∷ [])
unfolding update where_clause format_sql format_where_cond trim_char rtrim
update_status = refl

abbrev fields : List (Bytes × Bytes)
fields = (codes "mid", codes "5") ∷ (codes "status", codes "2") ∷ []

format_sql-join_example :
    format_sql fields ≡ some (join (map assignment fields) (codes ","), map value fields)
format_sql-join_example =
    format_sql-join (codes "mid", codes "5") ((codes "status", codes "2") ∷ [])

-- a server that takes every statement and counts its marks
abbrev server : Mysql
server = record {
  prepares = λ sql. true;
  param_count = λ sql. marks_from plain sql;
  binds = λ params. true;
  runs = λ st. true;
  affected_rows = λ st. pos 1;
  insert_id = λ st. pos 7;
}

abbrev named_like : Conditions
named_like = (codes "name:like", codes "wen" ∷ []) ∷ []

abbrev like_sql : Bytes
like_sql = codes "UPDATE `tb` SET `status`=? WHERE `name` LIKE '%?%'"

abbrev like_params : List Bytes
like_params = codes "2" ∷ codes "wen" ∷ []

like_update :
    update (codes "tb") ((codes "status", codes "2") ∷ []) named_like ≡ some (like_sql, like_params)
unfolding update where_clause format_sql format_where_cond trim_char rtrim
like_update = refl

named_like-HasColumns : HasColumns named_like
unfolding split_key
named_like-HasColumns = ((refl, (refl, (refl, (refl, tt)))), tt)

update_rows_lem_example :
    (likes named_like ≡ 0
      → server.binds like_params ≡ true
      → server.runs (like_sql, like_params) ≡ true
      → update_rows server (codes "tb") ((codes "status", codes "2") ∷ []) named_like
        ≡ some (server.affected_rows (like_sql, like_params), (like_sql, like_params) ∷ []))
    × (1 ≤ likes named_like
        → update_rows server (codes "tb") ((codes "status", codes "2") ∷ []) named_like
          ≡ some (negsuc 1, []))
update_rows_lem_example =
    update_rows_lem server (codes "tb") ((codes "status", codes "2") ∷ []) named_like like_sql
      like_params (refl, (refl, tt)) ((refl, (refl, (refl, (refl, (refl, (refl, tt)))))), tt)
      named_like-HasColumns like_update refl refl

format_where_cond-Makes_example : Makes (likes named_like) (format_where_cond named_like)
format_where_cond-Makes_example = format_where_cond-Makes named_like named_like-HasColumns
