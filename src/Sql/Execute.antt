-- ===== src/Sql/Execute.antt =====
-- down_parse_client/mysql/DB.cpp: bind_param_execute, query, execute, and what update, insert and
-- insert_update return. The MySQL library is a parameter; a call that it refuses is `false`.
pub mod Laws
use studytest.Base.{
  ℕ, zero, suc, List, [], ◌∷◌, Option, some, none, Bool, Bytes, length, leb, ltb, ◌==◌,
  if◌then◌else◌, ℤ, pos, negsuc,
}
use studytest.Sql.{
  Fields, Conditions, Statement, InsertUpdate, refused, strayed, executes, update, insert,
  insert_update,
}

-- preparing, the number of marks of a prepared statement, binding, executing, and what it tells behind an
-- execution
pub record Mysql : Type 0 where
  pub prepares : Bytes → Bool
  pub param_count : Bytes → ℕ
  pub binds : List Bytes → Bool
  pub runs : Statement → Bool
  pub affected_rows : Statement → ℤ
  pub insert_id : Statement → ℤ

-- what a call returns, and the statements that it had the server execute
abbrev pub Answer : Type 0
Answer = ℤ × List Statement

module _ (db : Mysql) where
  unfoldable pub bind_param_execute : Statement → Answer
  bind_param_execute (sql, param) =
      if leb (length sql) 0
      then (negsuc 0, [])
      else if db.prepares sql
      then (if db.param_count sql == length param
          then (if db.binds param
              then (if db.runs (sql, param)
                  then (pos 0, (sql, param) ∷ [])
                  else (negsuc 1, (sql, param) ∷ []))
              else (negsuc 1, []))
          else (negsuc 1, []))
      else (negsuc 0, [])

  -- `execute`: behind a 0 of `query`, the number of rows
  abbrev pub rows_of : Statement → Answer → Answer
  rows_of st (pos zero, done) = (db.affected_rows st, done)
  rows_of st (pos (suc n), done) = (pos (suc n), done)
  rows_of st (negsuc n, done) = (negsuc n, done)

  unfoldable pub execute : Statement → Answer
  unfolding bind_param_execute
  execute st = rows_of st (bind_param_execute st)

  -- `update`; `none` is a read outside a string
  unfoldable pub update_rows : Bytes → Fields → Conditions → Option Answer
  unfolding execute
  update_rows table fields conditions = elim (update table fields conditions) [
    | none ↦ none
    | some st ↦ some (execute st)
  ]

  -- `insert`: behind a number of rows above 0, the id
  abbrev pub id_of : Statement → Answer → Answer
  id_of st (pos zero, done) = (pos 0, done)
  id_of st (pos (suc n), done) = (db.insert_id st, done)
  id_of st (negsuc n, done) = (negsuc n, done)

  unfoldable pub insert_row : Bytes → Fields → Option Answer
  unfolding execute
  insert_row table fields = elim (insert table fields) [
    | none ↦ none
    | some st ↦ some (id_of st (execute st))
  ]

  abbrev pub answer_of : InsertUpdate → Option Answer
  answer_of refused = some (negsuc 0, [])
  answer_of strayed = none
  answer_of (executes st) = some (execute st)

  unfoldable pub insert_update_rows : Bytes → Fields → Fields → Option Answer
  insert_update_rows table insert_data update_data =
      answer_of (insert_update table insert_data update_data)
