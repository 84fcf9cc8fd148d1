-- ===== src/Sql/Execute/Laws.antt =====
-- What becomes of an UPDATE: whether the server counts as many marks as there are parameters.
use mathlib.Core.Path.{subst, sym}
use studytest.Base.{
  ℕ, ◌+◌, ◌≤◌, ◌<◌, ◌≡◌, refl, ap, ◌∙◌, List, [], ◌∷◌, ◌++◌, map, Option, some, none, true, false,
  Bytes, codes, length, length-append, leb, ◌==◌, ==_iff, All, arith, negsuc,
}
use studytest.Strings.Split.{join}
use studytest.Sql.{
  Fields, Conditions, Statement, format_sql, format_where_cond, where_clause, update,
}
use studytest.Sql.Assign.{assignment, value, format_sql-join}
use studytest.Sql.Marks.{
  IsBalanced, append-IsBalanced, IsColumn, after-ticked, marks_from-ticked, plain, after,
  marks_from, move, mark_at,
}
use studytest.Sql.Conditions.{Makes, likes, HasColumns}
use studytest.Sql.Where.{format_where_cond-Makes}
use studytest.Sql.Execute.{Mysql, bind_param_execute, execute, update_rows}

-- no name of a field holds a tick
abbrev pub HasNames : Fields → Type 0
HasNames = All (λ f. IsColumn f.0)

assignment-IsBalanced : (f : Bytes × Bytes) → IsColumn f.0 → IsBalanced 1 (assignment f)
unfolding after marks_from move mark_at
assignment-IsBalanced (k, v) h = record {
  closed = after-ticked k (codes "`=?") h;
  counted = omega (arith, marks_from-ticked k (codes "`=?") h);
}

join-IsBalanced :
    (f : Bytes × Bytes) (m : Fields)
    → HasNames (f ∷ m)
    → IsBalanced (length (map value (f ∷ m))) (join (map assignment (f ∷ m)) (codes ","))
unfolding after marks_from move mark_at
join-IsBalanced f [] (h, _) = assignment-IsBalanced f h
join-IsBalanced f (g ∷ m) (h, hs) =
    subst (λ n. IsBalanced n (join (map assignment (f ∷ (g ∷ m))) (codes ","))) (omega arith)
      (append-IsBalanced 1 (0 + length (map value (g ∷ m))) (assignment f)
        (codes "," ++ join (map assignment (g ∷ m)) (codes ",")) (assignment-IsBalanced f h)
        (append-IsBalanced 0 (length (map value (g ∷ m))) (codes ",")
          (join (map assignment (g ∷ m)) (codes ",")) (record { closed = refl; counted = refl })
          (join-IsBalanced g m hs)))

format_sql-Makes : (fields : Fields) → HasNames fields → Makes 0 (format_sql fields)
unfolding format_sql after marks_from
format_sql-Makes [] h = (0, record { closed = refl; counted = refl }, refl)
format_sql-Makes (f ∷ m) h =
    subst (Makes 0) (sym (format_sql-join f m))
      (length (map value (f ∷ m)), join-IsBalanced f m h, omega arith)

where_clause-IsBalanced : (n : ℕ) (w : Bytes) → IsBalanced n w → IsBalanced n (where_clause w)
unfolding where_clause after marks_from move mark_at
where_clause-IsBalanced n [] h = h
where_clause-IsBalanced n (c ∷ s) h =
    subst (λ k. IsBalanced k (codes " WHERE " ++ (c ∷ s))) (omega arith)
      (append-IsBalanced 0 n (codes " WHERE ") (c ∷ s) (record { closed = refl; counted = refl }) h)

update_text-IsBalanced :
    (n : ℕ) (table rest : Bytes)
    → IsColumn table
    → IsBalanced n rest
    → IsBalanced n (codes "UPDATE `" ++ (table ++ (codes "` SET " ++ rest)))
unfolding after marks_from move mark_at
update_text-IsBalanced n table rest h v = record {
  closed = after-ticked table (codes "` SET " ++ rest) h ∙ v.closed;
  counted = omega (arith, marks_from-ticked table (codes "` SET " ++ rest) h, v.counted);
}

-- `update`, from what `format_sql` and `format_where_cond` make
abbrev updated : Bytes → Option Statement → Option Statement → Option Statement
updated table none w = none
updated table (some u) none = none
updated table (some (u_sql, u_data)) (some (w_sql, w_data)) = some (
  codes "UPDATE `" ++ (table ++ (codes "` SET " ++ (u_sql ++ where_clause w_sql))),
  u_data ++ w_data,
)

update-updated :
    (table : Bytes) (fields : Fields) (conditions : Conditions)
    → update table fields conditions
      ≡ updated table (format_sql fields) (format_where_cond conditions)
unfolding update
update-updated table fields conditions = go (format_sql fields) (format_where_cond conditions)
  where
    go :
        (o w : Option Statement)
        → ◌≡◌ {A = Option Statement}
            (elim o [
              | none ↦ none
              | some (u_sql, u_data) ↦ elim w [
                | none ↦ none
                | some (w_sql, w_data) ↦ some (
                  codes "UPDATE `" ++ (table ++ (codes "` SET " ++ (u_sql ++ where_clause w_sql))),
                  u_data ++ w_data,
                )
              ]
            ])
            (updated table o w)
    go none w = refl
    go (some (u_sql, u_data)) none = refl
    go (some (u_sql, u_data)) (some (w_sql, w_data)) = refl

-- The marks of an UPDATE are its parameters, but for one mark less for each LIKE with a value.
pub update-Makes :
    (table : Bytes) (fields : Fields) (conditions : Conditions)
    → IsColumn table
    → HasNames fields
    → HasColumns conditions
    → Makes (likes conditions) (update table fields conditions)
update-Makes table fields conditions ht hf hc =
    subst (Makes (likes conditions)) (sym (update-updated table fields conditions)) (
      go (format_sql fields) (format_where_cond conditions) (format_sql-Makes fields hf)
        (format_where_cond-Makes conditions hc))
  where
    go :
        (o w : Option Statement)
        → Makes 0 o
        → Makes (likes conditions) w
        → Makes (likes conditions) (updated table o w)
    go none w mo mw = tt
    go (some (u_sql, u_data)) none mo mw = tt
    go (some (u_sql, u_data)) (some (w_sql, w_data)) (k, b, e) (k', b', e') = (
      k + k',
      update_text-IsBalanced (k + k') table (u_sql ++ where_clause w_sql) ht (
          append-IsBalanced k k' u_sql (where_clause w_sql) b
            (where_clause-IsBalanced k' w_sql b')),
      omega (arith, e, e', length-append u_data w_data),
    )

abbrev sql_of : Option Statement → Bytes
sql_of none = []
sql_of (some (sql, params)) = sql

update-ne :
    (table : Bytes) (fields : Fields) (conditions : Conditions) (sql : Bytes) (params : List Bytes)
    → update table fields conditions ≡ some (sql, params)
    → 0 < length sql
update-ne table fields conditions sql params e =
    go (format_sql fields) (format_where_cond conditions)
      (sym (update-updated table fields conditions) ∙ e)
  where
    go : (o w : Option Statement) → updated table o w ≡ some (sql, params) → 0 < length sql
    go none w e = cc
    go (some (u_sql, u_data)) none e = cc
    go (some (u_sql, u_data)) (some (w_sql, w_data)) e =
        omega (arith, ap (λ o. length (sql_of o)) e)

module _ (db : Mysql) where
  -- The server refuses a statement with another number of marks, and takes one with the right number.
  pub bind_param_execute-count :
      (sql : Bytes) (params : List Bytes)
      → 0 < length sql
      → db.prepares sql ≡ true
      → ((db.param_count sql ≡ length params)
          → db.binds params ≡ true
          → db.runs (sql, params) ≡ true
          → execute db (sql, params) ≡ (db.affected_rows (sql, params), (sql, params) ∷ []))
        × (db.param_count sql < length params → execute db (sql, params) ≡ (negsuc 1, []))
  unfolding execute bind_param_execute
  bind_param_execute-count sql params ne prepared =
      let some_sql : leb (length sql) 0 ≡ false = ground arith in
      (
        λ alike bound run.
            let right : (db.param_count sql == length params) ≡ true = (==_iff _ _).1 alike in
            rw some_sql (rw prepared (rw right (rw bound (rw run refl)))),
        λ fewer.
            let wrong : (db.param_count sql == length params) ≡ false = ground arith in
            rw some_sql (rw prepared (rw wrong refl)),
      )

  -- An UPDATE without a LIKE is executed once and gives the number of rows, if the server prepares, binds
  -- and executes it; an UPDATE whose conditions have a LIKE with a value is never executed and gives -2,
  -- since its mark stands in quotes. The server counts the marks outside of quotes and ticks, and no name
  -- holds a tick.
  pub update_rows_lem :
      (table : Bytes) (fields : Fields) (conditions : Conditions) (sql : Bytes)
      (params : List Bytes)
      → IsColumn table
      → HasNames fields
      → HasColumns conditions
      → update table fields conditions ≡ some (sql, params)
      → db.param_count sql ≡ marks_from plain sql
      → db.prepares sql ≡ true
      → (likes conditions ≡ 0
          → db.binds params ≡ true
          → db.runs (sql, params) ≡ true
          → update_rows db table fields conditions
            ≡ some (db.affected_rows (sql, params), (sql, params) ∷ []))
        × (1 ≤ likes conditions → update_rows db table fields conditions ≡ some (negsuc 1, []))
  unfolding update_rows
  update_rows_lem table fields conditions sql params ht hf hc e count prepared =
      let (k, b, total) =
        subst (Makes (likes conditions)) e (update-Makes table fields conditions ht hf hc) in
      let (right, wrong) =
        bind_param_execute-count sql params (update-ne table fields conditions sql params e)
          prepared in
      (
        λ none_like bound run.
            rw (e, update_rows)
              (ap some (right (omega (arith, count, b.counted, total, none_like)) bound run)),
        λ like.
            rw (e, update_rows) (ap some (wrong (omega (arith, count, b.counted, total, like)))),
      )
