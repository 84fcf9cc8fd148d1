-- ===== src/Import/Insert.antt =====
-- The INSERT that an item's rows become.
use mathlib.Core.Path.{subst}
use mathlib.Core.List.{cons-ne-nil}
use studytest.Base.{
  ◌*◌, ◌≡◌, refl, sym, ap, ◌∙◌, List, [], ◌∷◌, ◌++◌, append_assoc, append-nil, some, true, Bytes,
  codes, length, arith,
}
use studytest.Strings.{leaves, rtrim}
use studytest.Strings.Ends.{rtrim-end}
use studytest.Sql.{Statement}
use studytest.Sql.Marks.{IsBalanced, append-IsBalanced, plain, after, marks_from, move, mark_at}
use studytest.Sql.Execute.{Mysql, execute}
use studytest.Sql.Execute.Laws.{bind_param_execute-count}
use studytest.Import.{Row, row_params, insert_head, add_rows, trimmed, insert_statement}

-- the marks of one row
abbrev group : Bytes
group = codes "(?,?,?,?,?,?,?,?)"

-- the groups of rows, with a comma between them
abbrev groups : List Row → Bytes
groups [] = []
groups (r ∷ rows) = codes "," ++ (group ++ groups rows)

abbrev all_params : Bytes → Bytes → Bytes → List Row → List Bytes
all_params task_id engine_id query [] = []
all_params task_id engine_id query (r ∷ rows) =
    row_params task_id engine_id query r ++ all_params task_id engine_id query rows

-- The comma behind a group is the one before the next.
add_rows-groups :
    (task_id engine_id query : Bytes) (rows : List Row) (sql : Bytes) (params : List Bytes)
    → add_rows task_id engine_id query rows (sql ++ codes ",", params)
      ≡ (sql ++ (groups rows ++ codes ","), params ++ all_params task_id engine_id query rows)
unfolding add_rows
add_rows-groups task_id engine_id query [] sql params = rw (append-nil params) refl
add_rows-groups task_id engine_id query (r ∷ rows) sql params =
    ap
      (λ (t : Bytes).
        add_rows task_id engine_id query rows (t, params ++ row_params task_id engine_id query r))
      (append_assoc sql (codes ",") (group ++ codes ",")
        ∙ sym (append_assoc sql (codes "," ++ group) (codes ",")))
    ∙ add_rows-groups task_id engine_id query rows (sql ++ (codes "," ++ group))
        (params ++ row_params task_id engine_id query r)
    ∙ ap
        (λ (t : Bytes). (
          t,
          (params ++ row_params task_id engine_id query r)
              ++ all_params task_id engine_id query rows,
        ))
        (append_assoc sql (codes "," ++ group) (groups rows ++ codes ","))
    ∙ ap (λ (ps : List Bytes). (sql ++ (groups (r ∷ rows) ++ codes ","), ps))
        (append_assoc params (row_params task_id engine_id query r)
          (all_params task_id engine_id query rows))

groups-IsBalanced : (rows : List Row) → IsBalanced (8 * length rows) (groups rows)
unfolding after marks_from move mark_at
groups-IsBalanced [] = record { closed = refl; counted = omega arith }
groups-IsBalanced (r ∷ rows) =
    subst (λ n. IsBalanced n (groups (r ∷ rows))) (omega arith)
      (append-IsBalanced 8 (8 * length rows) (codes "," ++ group) (groups rows)
        (record { closed = refl; counted = refl }) (groups-IsBalanced rows))

length-all_params :
    (task_id engine_id query : Bytes) (rows : List Row)
    → length (all_params task_id engine_id query rows) ≡ 8 * length rows
length-all_params task_id engine_id query [] = omega arith
length-all_params task_id engine_id query (r ∷ rows) =
    omega (arith, length-all_params task_id engine_id query rows)

-- the groups end in a bracket
groups-ends :
    (s : Bytes) (rows : List Row)
    → (front : Bytes) × (s ++ (group ++ groups rows) ≡ front ++ b')' ∷ [])
groups-ends s [] =
    (s ++ codes "(?,?,?,?,?,?,?,?", sym (append_assoc s (codes "(?,?,?,?,?,?,?,?") (codes ")")))
groups-ends s (r ∷ rows) =
    let (front, e) = groups-ends (s ++ (group ++ codes ",")) rows in
    (front, sym (append_assoc s (group ++ codes ",") (group ++ groups rows)) ∙ e)

-- the statement for at least one row
abbrev insert_sql : List Row → Bytes
insert_sql rows = insert_head ++ (group ++ groups rows)

insert_statement-form :
    (task_id engine_id query : Bytes) (r : Row) (rows : List Row)
    → insert_statement task_id engine_id query (r ∷ rows)
      ≡ some (insert_sql rows, all_params task_id engine_id query (r ∷ rows))
unfolding insert_statement add_rows
insert_statement-form task_id engine_id query r rows =
    let (front, e) = groups-ends insert_head rows in
    let made =
      add_rows-groups task_id engine_id query rows (insert_head ++ group)
        (row_params task_id engine_id query r) in
    let cut : rtrim ((insert_head ++ group) ++ (groups rows ++ codes ",")) (codes ",")
        ≡ leaves (insert_sql rows) =
      ap (λ t. rtrim (t ++ codes ",") (codes ",")) e
      ∙ rtrim-end front (codes ",") (codes ",") b')' (refl, tt) refl (cons-ne-nil _ _)
      ∙ ap leaves (sym e) in
    ap trimmed made ∙ rw (cut, trimmed) refl

-- However many rows an item has, at least one: its INSERT can be made, with eight parameters for each row; and
-- the server executes this statement once, if it counts the marks of its text outside of quotes and ticks and
-- prepares, binds and executes it.
pub insert_statement-execute :
    (db : Mysql) (task_id engine_id query : Bytes) (r : Row) (rows : List Row)
    → ((st : Statement)
        → insert_statement task_id engine_id query (r ∷ rows) ≡ some st
        → db.param_count st.0 ≡ marks_from plain st.0)
    → ((st : Statement)
        → insert_statement task_id engine_id query (r ∷ rows) ≡ some st
        → db.prepares st.0 ≡ true)
    → ((st : Statement)
        → insert_statement task_id engine_id query (r ∷ rows) ≡ some st
        → db.binds st.1 ≡ true)
    → ((st : Statement)
        → insert_statement task_id engine_id query (r ∷ rows) ≡ some st
        → db.runs st ≡ true)
    → (st : Statement) × (insert_statement task_id engine_id query (r ∷ rows) ≡ some st)
      × (length st.1 ≡ 8 * length (r ∷ rows))
      × (execute db st ≡ (db.affected_rows st, st ∷ []))
unfolding after marks_from move mark_at
insert_statement-execute db task_id engine_id query r rows counts prepares binds runs =
    let sql = insert_sql rows in
    let params = all_params task_id engine_id query (r ∷ rows) in
    let form = insert_statement-form task_id engine_id query r rows in
    let balanced =
      append-IsBalanced 8 (8 * length rows) (insert_head ++ group) (groups rows)
        (record { closed = refl; counted = refl }) (groups-IsBalanced rows) in
    let size = length-all_params task_id engine_id query (r ∷ rows) in
    (
      (sql, params),
      form,
      size,
      (bind_param_execute-count db sql params (omega arith) (prepares (sql, params) form)).0
          (omega (arith, counts (sql, params) form, balanced.counted, size))
          (binds (sql, params) form) (runs (sql, params) form),
    )
