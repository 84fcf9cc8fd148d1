-- ===== src/Sql/Listing/Tests.antt =====
-- The statements of mark_oss.cpp for concrete arguments.
use studytest.Base.{◌↔◌, ◌⊎◌, ◌≤◌, ◌≡◌, refl, [], ◌∷◌, some, none, codes, pos, negsuc}
use studytest.Strings.{trim_char, rtrim}
use studytest.Sql.{where_clause, format_sql, format_where_cond, update}
use studytest.Sql.Listing.Numbers.{TooLong, format_orderby_limit-none_iff}
use studytest.Sql.Listing.{
  start_of, at_least_one, number_text, int_text, order_clause, format_orderby_limit, get_total,
  get_list, get_list_from, refused, fetches, get_task_info, set_task_status,
}

second_page :
    get_list
      (codes "tb_engine")
      ((codes "eid:in", codes "1" ∷ codes "2" ∷ []) ∷ [])
      (pos 2)
      (pos 20)
      ((codes "eid", codes "ASC") ∷ (codes "name", codes "DESC") ∷ [])
    ≡ some (
      codes
          "SELECT * FROM `tb_engine`  WHERE `eid` IN (?,?) ORDER BY eid ASC,name DESC LIMIT 20,20",
      codes "1" ∷ codes "2" ∷ [],
    )
unfolding get_list format_orderby_limit order_clause int_text number_text format_where_cond
    where_clause trim_char rtrim
second_page = refl

from_start :
    get_list_from (codes "tb_dcg_query") [] (pos 5) (pos 0)
    ≡ some (codes "SELECT * FROM `tb_dcg_query`  LIMIT 5,1", [])
unfolding get_list_from format_orderby_limit order_clause int_text number_text format_where_cond
    where_clause
from_start = refl

-- ten digits do not fit
long_start : format_orderby_limit (pos 100001) (pos 10000) [] 1 ≡ none
unfolding format_orderby_limit order_clause int_text number_text
long_start = refl

-- 65536 pages of 65536 rows wrap around to the first one
wrapped_start : format_orderby_limit (pos 65537) (pos 65536) [] 1 ≡ some (codes " LIMIT 0,65536")
unfolding format_orderby_limit order_clause int_text number_text
wrapped_start = refl

below_start :
    get_list_from (codes "t") [] (negsuc 0) (pos 1)
    ≡ some (codes "SELECT * FROM `t`  LIMIT -1,1", [])
unfolding get_list_from format_orderby_limit order_clause int_text number_text format_where_cond
    where_clause
below_start = refl

total : get_total (codes "t") [] ≡ some (codes "SELECT COUNT(*) FROM `t`", [])
unfolding get_total format_where_cond where_clause
total = refl

task_of_zero : get_task_info 0 ≡ refused
unfolding get_task_info
task_of_zero = refl

task_twelve :
    get_task_info 12 ≡ fetches (codes "SELECT * FROM `tb_dcg_task` WHERE `tid`=?", codes "12" ∷ [])
unfolding get_task_info number_text
task_twelve = refl

status_of :
    set_task_status (codes "9") (codes "2")
    ≡ some (codes "UPDATE `tb_dcg_task` SET `status`=? WHERE `tid`=?", codes "2" ∷ codes "9" ∷ [])
unfolding set_task_status update where_clause format_sql format_where_cond trim_char rtrim
status_of = refl

format_orderby_limit-none_iff_example :
    (format_orderby_limit (pos 100001) (pos 10000) [] 1 ≡ none)
    ↔ (TooLong (start_of (pos 100001) (pos 10000) 1) ⊎ (1000000000 ≤ at_least_one (pos 10000)))
format_orderby_limit-none_iff_example = format_orderby_limit-none_iff (pos 100001) (pos 10000) 1
