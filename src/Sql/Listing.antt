-- ===== src/Sql/Listing.antt =====
-- down_parse_client/mysql/mark_oss.cpp: the statements of its queries. A page, a page size and a start are
-- ints; a product that does not fit in one wraps around, as compilers have it.
pub mod Numbers
mod Tests
use studytest.Base.{
  ℕ, zero, suc, ◌+◌, ◌-◌, ◌*◌, ◌/◌, ◌%◌, List, [], ◌∷◌, ◌++◌, Option, some, none, Bool, Bytes,
  codes, length, ltb, leb, ◌==◌, if◌then◌else◌, ℤ, pos, negsuc, ◌^◌,
}
use studytest.Strings.{leaves, trim_char}
use studytest.Sql.{
  Fields, Conditions, Statement, left_over, format_where_cond, where_clause, update,
}

-- The digits of `sprintf("%d")`, on fuel: the last ones, as many as the fuel allows.
pub decimal : ℕ → ℕ → Bytes
decimal zero n = []
decimal (suc f) n =
    let more = decimal f (n / 10) in
    if ltb n 10 then (b'0' + n) ∷ [] else more ++ (b'0' + n % 10) ∷ []

-- `sprintf` into a `char[10]`: `none` writes behind it. Eleven digits are looked at, since ten are too many.
unfoldable pub number_text : ℕ → Option Bytes
unfolding decimal
number_text n = let text = decimal 11 n in if leb (length text) 9 then some text else none

-- the same for an int of either sign
unfoldable pub int_text : ℤ → Option Bytes
unfolding number_text
int_text (pos n) = number_text n
int_text (negsuc n) =
    let text = codes "-" ++ decimal 11 (suc n) in if leb (length text) 9 then some text else none

-- the int of 32 bits that a number is cut to
abbrev pub as_int : ℕ → ℤ
as_int n = let m = n % 2 ^ 32 in if ltb m (2 ^ 31) then pos m else negsuc (2 ^ 32 - 1 - m)

-- the loop over the columns to order by
pub order_items : Fields → Bytes → Bytes
order_items [] order = order
order_items ((column, direction) ∷ m) order =
    order_items m (order ++ (column ++ (codes " " ++ (direction ++ codes ","))))

unfoldable pub order_clause : Fields → Option Bytes
unfolding order_items
order_clause [] = some []
order_clause (f ∷ m) = left_over (trim_char (order_items (f ∷ m) (codes " ORDER BY ")) b',')

-- `(x <= 0) ? 1 : x`
abbrev pub at_least_one : ℤ → ℕ
at_least_one (pos zero) = 1
at_least_one (pos (suc n)) = suc n
at_least_one (negsuc n) = 1

abbrev pub start_of : ℤ → ℤ → ℕ → ℤ
start_of page pagesize limit_type =
    if 1 == limit_type then as_int ((at_least_one page - 1) * at_least_one pagesize) else page

-- `format_orderby_limit`
unfoldable pub format_orderby_limit : ℤ → ℤ → Fields → ℕ → Option Bytes
format_orderby_limit page pagesize orderby limit_type = elim (order_clause orderby) [
  | none ↦ none
  | some order ↦ elim (int_text (start_of page pagesize limit_type)) [
    | none ↦ none
    | some start_str ↦ elim (number_text (at_least_one pagesize)) [
      | none ↦ none
      | some pagesize_str ↦
          some (order ++ (codes " LIMIT " ++ (start_str ++ (codes "," ++ pagesize_str))))
    ]
  ]
]

-- What `getTotal` hands to `fetch_one`.
unfoldable pub get_total : Bytes → Conditions → Option Statement
get_total table conditions = elim (format_where_cond conditions) [
  | none ↦ none
  | some (where_sql, w_data) ↦
      some
        (codes "SELECT COUNT(*) FROM `" ++ (table ++ (codes "`" ++ where_clause where_sql)), w_data)
]

-- the statement that the two versions of `getList` share
abbrev select_all : Bytes → Conditions → Option Bytes → Option Statement
select_all table conditions none = none
select_all table conditions (some orderby_limit) = elim (format_where_cond conditions) [
  | none ↦ none
  | some (where_sql, w_data) ↦ some (
    codes "SELECT * FROM `" ++ (table ++ (codes "` " ++ (where_clause where_sql ++ orderby_limit))),
    w_data,
  )
]

-- What `getList` with a page hands to `fetch_all`.
unfoldable pub get_list : Bytes → Conditions → ℤ → ℤ → Fields → Option Statement
get_list table conditions page pagesize orderby =
    select_all table conditions (format_orderby_limit page pagesize orderby 1)

-- What `getList` with a start hands to `fetch_all`.
unfoldable pub get_list_from : Bytes → Conditions → ℤ → ℤ → Option Statement
get_list_from table conditions start limit =
    select_all table conditions (format_orderby_limit start limit [] 0)

-- `get_task_info`: its -1 for a number of 0 or less, a task number that does not fit in its buffer, or the
-- statement for `fetch_row`
pub data TaskInfo : Type 0 where
  refused : TaskInfo
  overruns : TaskInfo
  fetches : Statement → TaskInfo

unfoldable pub get_task_info : ℕ → TaskInfo
get_task_info zero = refused
get_task_info (suc n) = elim (number_text (suc n)) [
  | none ↦ overruns
  | some task_id_str ↦ fetches (codes "SELECT * FROM `tb_dcg_task` WHERE `tid`=?", task_id_str ∷ [])
]

-- `set_task_status` of clientConfig.cpp
unfoldable pub set_task_status : Bytes → Bytes → Option Statement
set_task_status task_id status =
    update (codes "tb_dcg_task") ((codes "status", status) ∷ []) ((codes "tid", task_id ∷ []) ∷ [])
