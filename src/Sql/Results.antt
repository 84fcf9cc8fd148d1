-- ===== src/Sql/Results.antt =====
-- down_parse_client/mysql/DB.cpp: get_execute_result, fetch_one, fetch_all and fetch_row; and getList of
-- mysql/mark_oss.cpp behind its query. The rows that the server gives are a parameter: each is the list of
-- its columns, with the name and the text in the buffer where the column could be fetched.
pub mod Laws
pub mod Keys
mod Tests
use studytest.Base.{
  ℕ, zero, suc, List, [], ◌∷◌, Option, some, none, Bool, Bytes, if◌then◌else◌, ℤ, pos, negsuc,
  is_zero,
}
use studytest.Base.Maps.{get, put_new, put}
use studytest.Sql.{Fields, Conditions, Statement}
use studytest.Sql.Execute.{Mysql, bind_param_execute}
use studytest.Sql.Listing.{number_text, get_list}

abbrev pub Cell : Type 0
Cell = Option (Bytes × Bytes)

-- the loop over the columns of a row
unfoldable pub add_cells : List Cell → Fields → Fields
unfolding put_new
add_cells [] row = row
add_cells (none ∷ cells) row = add_cells cells row
add_cells (some (name, text) ∷ cells) row = add_cells cells (put_new name text row)

-- The loop over the rows: `ret[row_num]` is made by the first column that is inserted.
abbrev pub with_row : ℕ → Fields → List (ℕ × Fields) → List (ℕ × Fields)
with_row row_num [] rest = rest
with_row row_num (f ∷ row) rest = (row_num, f ∷ row) ∷ rest

unfoldable pub get_execute_result : ℕ → List (List Cell) → List (ℕ × Fields)
unfolding add_cells
get_execute_result row_num [] = []
get_execute_result row_num (cells ∷ rows) =
    with_row row_num (add_cells cells []) (get_execute_result (suc row_num) rows)

-- How a call ends: the program exits, what it reads is not there, or it returns a number and leaves its
-- result.
pub data Fetched (A : Type 0) : Type 0 where
  exits : Fetched A
  strays : Fetched A
  returns : ℤ → A → Fetched A

-- `ret.find(0)`, and `ret[0]`
abbrev pub first_row : Fields → List (ℕ × Fields) → Fetched Fields
first_row result [] = returns (negsuc 1) result
first_row result ((zero, row) ∷ rows) = returns (pos 0) row
first_row result ((suc n, row) ∷ rows) = returns (negsuc 2) result

-- `ret[0].begin()->second`
abbrev pub first_value : Bytes → List (ℕ × Fields) → Fetched Bytes
first_value result [] = returns (negsuc 1) result
first_value result ((zero, []) ∷ rows) = strays
first_value result ((zero, (name, text) ∷ row) ∷ rows) = returns (pos 0) text
first_value result ((suc n, row) ∷ rows) = returns (negsuc 2) result

-- `reads` is what `mysql_stmt_fetch` gives behind a statement; `none` is a failure at which the program exits
module _ (db : Mysql) (reads : Statement → Option (List (List Cell))) where
  abbrev pub fetched :
      {A : Type 0} → Statement → (List (ℕ × Fields) → Fetched A) → Fetched A → Fetched A
  fetched st then_ failed =
      if is_zero (bind_param_execute db st).0
      then (elim (reads st) [ none ↦ exits | some rows ↦ then_ (get_execute_result 0 rows) ])
      else failed

  unfoldable pub fetch_one : Statement → Bytes → Fetched Bytes
  unfolding get_execute_result
  fetch_one st result = fetched st (first_value result) (returns (negsuc 0) result)

  unfoldable pub fetch_row : Statement → Fields → Fetched Fields
  unfolding get_execute_result
  fetch_row st result = fetched st (first_row result) (returns (negsuc 0) result)

  unfoldable pub fetch_all : Statement → List (ℕ × Fields) → Fetched (List (ℕ × Fields))
  unfolding get_execute_result
  fetch_all st ret = fetched st (returns (pos 0)) (returns (negsuc 0) ret)

-- the key of a row in `getList`; `none` writes behind a `char[10]`
unfoldable pub key_of : Bytes → ℕ → Fields → Option Bytes
unfolding get
key_of format_field row_num row = elim (get format_field row) [
  | none ↦ number_text row_num
  | some key ↦ some key
]

-- the loop over the rows
unfoldable pub format_rows :
    Bytes → List (ℕ × Fields) → List (Bytes × Fields) → Option (List (Bytes × Fields))
unfolding put key_of
format_rows format_field [] ret = some ret
format_rows format_field ((n, row) ∷ rows) ret = elim (key_of format_field n row) [
  | none ↦ none
  | some key ↦ format_rows format_field rows (put key row ret)
]

-- `getList` behind its statement: it returns 0 whatever `fetch_all` returns
abbrev pub formatted :
    Bytes → List (Bytes × Fields) → Fetched (List (ℕ × Fields)) → Fetched (List (Bytes × Fields))
formatted format_field ret exits = exits
formatted format_field ret strays = strays
formatted format_field ret (returns r q_ret) = elim (format_rows format_field q_ret ret) [
  | none ↦ strays
  | some filled ↦ returns (pos 0) filled
]

unfoldable pub get_list_rows :
    Mysql
    → (Statement → Option (List (List Cell)))
    → Bytes
    → Conditions
    → ℤ
    → ℤ
    → Bytes
    → Fields
    → List (Bytes × Fields)
    → Fetched (List (Bytes × Fields))
unfolding fetch_all format_rows
get_list_rows db reads table conditions page pagesize format_field orderby ret =
    elim (get_list table conditions page pagesize orderby) [
      | none ↦ strays
      | some st ↦ formatted format_field ret (fetch_all db reads st [])
    ]
