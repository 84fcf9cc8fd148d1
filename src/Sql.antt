-- ===== src/Sql.antt =====
-- down_parse_client/mysql/DB.cpp and mysql/mark_oss.cpp: how SQL statements are put together. A
-- `std::map` is the list of its pairs in the order of its iterator.
pub mod Assign
pub mod Listing
pub mod Marks
pub mod Conditions
pub mod Where
pub mod Execute
pub mod Results
mod Tests
use studytest.Base.{
  ℕ, zero, suc, ◌+◌, ◌-◌, ◌*◌, List, [], ◌∷◌, ◌++◌, Option, some, none, Bool, true, false, Bytes,
  codes, length, take, drop, leb, ltb, if◌then◌else◌, same, find,
}
use studytest.Strings.{Outcome, leaves, strays, hangs, trim_char, rtrim}

abbrev pub Fields : Type 0
Fields = List (Bytes × Bytes)

-- a column with its operator, and the values to compare with
abbrev pub Conditions : Type 0
Conditions = List (Bytes × List Bytes)

-- a statement or a part of one, and the parameters for its marks
abbrev pub Statement : Type 0
Statement = Bytes × List Bytes

-- what a trimming call leaves, where it does
abbrev pub left_over : Outcome → Option Bytes
left_over (leaves s) = some s
left_over strays = none
left_over hangs = none

-- `paramMap`
abbrev pub param_map : Fields
param_map =
    (codes "lt", codes "<")
    ∷ (codes "gt", codes ">")
    ∷ (codes "eq", codes "=")
    ∷ (codes "neq", codes "!=")
    ∷ (codes "lte", codes "<=")
    ∷ (codes "gte", codes ">=")
    ∷ (codes "in", codes "IN")
    ∷ (codes "llike", codes "LIKE")
    ∷ (codes "rlike", codes "LIKE")
    ∷ (codes "like", codes "LIKE")
    ∷ (codes "find", codes "FIND_IN_SET")
    ∷ []

abbrev pub lookup : Bytes → Fields → Option Bytes
lookup k [] = none
lookup k ((j, v) ∷ m) = if same j k then some v else lookup k m

-- the loop of `format_sql`
unfoldable pub assign_all : Fields → Statement → Statement
assign_all [] st = st
assign_all ((k, v) ∷ m) (sql, params) =
    assign_all m (sql ++ (codes "`" ++ (k ++ codes "`=?,")), params ++ v ∷ [])

-- `Utils::trim(ret, ',')`, behind the loop
unfoldable pub trim_commas : Statement → Option Statement
trim_commas (sql, params) = elim (left_over (trim_char sql b',')) [
  | none ↦ none
  | some s ↦ some (s, params)
]

-- `format_sql` into an empty string and an empty vector. `none`: the trimming reads outside the string.
unfoldable pub format_sql : Fields → Option Statement
unfolding assign_all trim_commas
format_sql [] = some ([], [])
format_sql (f ∷ m) = trim_commas (assign_all (f ∷ m) ([], []))

-- the part of a key before its `:`, and the operator behind it: `pos > 0`
unfoldable pub split_key : Bytes → Bytes × Bytes
split_key key = elim (find key (codes ":")) [
  | none ↦ (key, codes "=")
  | some pos ↦ if ltb 0 pos then (take pos key, drop (pos + 1) key) else (key, codes "=")
]

-- `sql_compare_symbol`
unfoldable pub symbol_of : Bytes → Bytes
symbol_of op = elim (lookup op param_map) [ none ↦ codes "=" | some s ↦ s ]

-- the loop over the values of an IN
unfoldable pub marks : List Bytes → Bytes → Bytes
marks [] out = out
marks (v ∷ vs) out = marks vs (out ++ codes "?,")

-- One round of the loop of `format_where_cond`, for a condition with the values `v ∷ vs`.
unfoldable pub add_condition : Bytes → Bytes → List Bytes → Statement → Option Statement
unfolding split_key symbol_of marks
add_condition key v vs (sql, params) =
    let (column, op) = split_key key in
    let name = codes "`" ++ (column ++ codes "`") in
    if same (symbol_of op) (codes "IN")
    then elim (left_over (trim_char (marks (v ∷ vs) (sql ++ (name ++ codes " IN ("))) b',')) [
      | none ↦ none
      | some s ↦ some (s ++ codes ") AND ", params ++ v ∷ vs)
    ]
    else if same (symbol_of op) (codes "LIKE")
    then (if same (codes "llike") op
        then some (sql ++ (name ++ codes " LIKE '?%' AND "), params ++ v ∷ [])
        else if same (codes "like") op
        then some (sql ++ (name ++ codes " LIKE '%?%' AND "), params ++ v ∷ [])
        else if same (codes "rlike") op
        then some (sql ++ (name ++ codes " LIKE '%?' AND "), params ++ v ∷ [])
        else some (sql, params))
    else if same (symbol_of op) (codes "FIND_IN_SET")
    then some (sql ++ (codes " FIND_IN_SET(?," ++ (name ++ codes ") AND ")), params ++ v ∷ [])
    else some (sql ++ (name ++ (symbol_of op ++ codes "? AND ")), params ++ v ∷ [])

-- The loop: a condition without a value is passed over.
unfoldable pub add_conditions : Conditions → Statement → Option Statement
unfolding add_condition
add_conditions [] st = some st
add_conditions ((key, []) ∷ m) st = add_conditions m st
add_conditions ((key, v ∷ vs) ∷ m) st = elim (add_condition key v vs st) [
  | none ↦ none
  | some st' ↦ add_conditions m st'
]

-- `format_where_cond` into an empty string and an empty vector
unfoldable pub format_where_cond : Conditions → Option Statement
unfolding add_conditions
format_where_cond [] = some ([], [])
format_where_cond (c ∷ m) = elim (add_conditions (c ∷ m) ([], [])) [
  | none ↦ none
  | some (sql, params) ↦ elim (left_over (rtrim sql (codes "AND "))) [
    | none ↦ none
    | some s ↦ some (s, params)
  ]
]

-- `w_sql.insert(0," WHERE ")`, if there is a condition
unfoldable pub where_clause : Bytes → Bytes
where_clause [] = []
where_clause (c ∷ s) = codes " WHERE " ++ (c ∷ s)

-- What `update` hands to `execute`.
unfoldable pub update : Bytes → Fields → Conditions → Option Statement
update table fields conditions = elim (format_sql fields) [
  | none ↦ none
  | some (u_sql, u_data) ↦ elim (format_where_cond conditions) [
    | none ↦ none
    | some (w_sql, w_data) ↦ some (
      codes "UPDATE `" ++ (table ++ (codes "` SET " ++ (u_sql ++ where_clause w_sql))),
      u_data ++ w_data,
    )
  ]
]

-- What `insert` hands to `execute`.
unfoldable pub insert : Bytes → Fields → Option Statement
insert table fields = elim (format_sql fields) [
  | none ↦ none
  | some (i_sql, i_data) ↦
      some (codes "INSERT INTO `" ++ (table ++ (codes "` SET " ++ i_sql)), i_data)
]

-- What `insert_update` hands to `execute`; with no field to insert or none to update, `refused` is its
-- -1 with no call.
pub data InsertUpdate : Type 0 where
  refused : InsertUpdate
  strayed : InsertUpdate
  executes : Statement → InsertUpdate

unfoldable pub insert_update : Bytes → Fields → Fields → InsertUpdate
insert_update table [] update_data = refused
insert_update table (f ∷ fs) [] = refused
insert_update table (f ∷ fs) (g ∷ gs) = elim (format_sql (f ∷ fs)) [
  | none ↦ strayed
  | some (i_sql, i_data) ↦ elim (format_sql (g ∷ gs)) [
    | none ↦ strayed
    | some (u_sql, u_data) ↦ executes (
      codes "INSERT INTO `"
          ++ (table ++ (codes "` SET " ++ (i_sql ++ (codes " ON DUPLICATE KEY UPDATE " ++ u_sql)))),
      i_data ++ u_data,
    )
  ]
]
