-- ===== src/Sql/Where.antt =====
-- The marks and the parameters of a WHERE clause, and of the UPDATE that has it.
use mathlib.Core.Path.{subst}
use studytest.Base.{
  ℕ, ◌+◌, ◌≡◌, refl, ap, List, [], ◌∷◌, ◌++◌, Option, some, none, true, false, Bytes, codes, length,
  length-append, same, same_iff, if◌then◌else◌, arith, Bool-cases, inl, inr,
}
use studytest.Strings.{Outcome, leaves, strays, hangs, is_char, trim_char, rtrim}
use studytest.Strings.Cuts.{trim_char-Cut, rtrim-Cut}
use studytest.Sql.{
  Conditions, Statement, left_over, split_key, symbol_of, marks, add_condition, add_conditions,
  format_where_cond,
}
use studytest.Sql.Marks.{
  IsBalanced, append-IsBalanced, IsColumn, name-IsBalanced, comma-IsNeutral, and-IsNeutral,
  marks-IsBalanced, after, marks_from, move, mark_at,
}
use studytest.Sql.Conditions.{
  IsShortOf, Makes, is_like, likes, HasColumns, not-like, symbol_of-IsBalanced, one_more, one_short,
  Cut-IsBalanced,
}

-- behind the loop over the values of an IN
values-Makes :
    (l : ℕ) (out : Bytes) (params vs : List Bytes)
    → IsShortOf l (out, params)
    → Makes l (elim (left_over (trim_char (marks vs out) b',')) [
      | none ↦ none
      | some s ↦ some (s ++ codes ") AND ", params ++ vs)
    ])
unfolding after marks_from move mark_at
values-Makes l out params vs (k, h, e) = go (trim_char (marks vs out) b',') refl
  where
    go :
        (o : Outcome)
        → trim_char (marks vs out) b',' ≡ o
        → Makes l
            (elim (left_over o) [ none ↦ none | some s ↦ some (s ++ codes ") AND ", params ++ vs) ])
    go strays q = tt
    go hangs q = tt
    go (leaves s) q =
        let trimmed =
          Cut-IsBalanced (is_char b',') (k + length vs) (marks vs out) s _ comma-IsNeutral
            (trim_char-Cut (marks vs out) b',' (omega arith)) q (marks-IsBalanced k vs out h) in
        (
          (k + length vs) + 0,
          append-IsBalanced (k + length vs) 0 s (codes ") AND ") trimmed
              (record { closed = refl; counted = refl }),
          omega (arith, e, length-append params vs),
        )

no_like :
    (l : ℕ) (op : Bytes) (o : Option Statement)
    → is_like op ≡ false
    → Makes l o
    → Makes ((if is_like op then 1 else 0) + l) o
no_like l op o e m =
    subst (λ n. Makes n o) (omega (arith, ap {B = ℕ} (λ b. if b then 1 else 0) e)) m

one_like :
    (l : ℕ) (op : Bytes) (o : Option Statement)
    → is_like op ≡ true
    → Makes (1 + l) o
    → Makes ((if is_like op then 1 else 0) + l) o
one_like l op o e m =
    subst (λ n. Makes n o) (omega (arith, ap {B = ℕ} (λ b. if b then 1 else 0) e)) m

-- A name with a text behind it.
name_then :
    (column s : Bytes) (n : ℕ)
    → IsColumn column
    → IsBalanced n s
    → IsBalanced (0 + n) ((codes "`" ++ (column ++ codes "`")) ++ s)
name_then column s n h b =
    append-IsBalanced 0 n (codes "`" ++ (column ++ codes "`")) s (name-IsBalanced column h) b

like-Makes :
    (column op sql v : Bytes) (params : List Bytes) (l : ℕ)
    → IsColumn column
    → IsShortOf l (sql, params)
    → let name = codes "`" ++ (column ++ codes "`") in
      Makes ((if is_like op then 1 else 0) + l) (
        if same (codes "llike") op
        then some (sql ++ (name ++ codes " LIKE '?%' AND "), params ++ v ∷ [])
        else if same (codes "like") op
        then some (sql ++ (name ++ codes " LIKE '%?%' AND "), params ++ v ∷ [])
        else if same (codes "rlike") op
        then some (sql ++ (name ++ codes " LIKE '%?' AND "), params ++ v ∷ [])
        else some (sql, params))
unfolding after marks_from move mark_at
like-Makes column op sql v params l h st =
    let name = codes "`" ++ (column ++ codes "`") in
    let short : (part : Bytes)
        → IsBalanced 0 part
        → IsShortOf (1 + l) (sql ++ (name ++ part), params ++ v ∷ []) =
      λ part b. one_short l sql (name ++ part) params v st (name_then column part 0 h b) in
    elim (Bool-cases (same (codes "llike") op)) [
      | inl e ↦ rw e (short (codes " LIKE '?%' AND ") (record { closed = refl; counted = refl }))
      | inr n ↦ elim (Bool-cases (same (codes "like") op)) [
        | inl e ↦
            rw n
              (rw e (short (codes " LIKE '%?%' AND ") (record { closed = refl; counted = refl })))
        | inr n' ↦ elim (Bool-cases (same (codes "rlike") op)) [
          | inl e ↦ rw n (
              rw n'
                (rw e (short (codes " LIKE '%?' AND ") (record { closed = refl; counted = refl }))))
          | inr n'' ↦
              rw n (rw n' (rw n'' (subst (λ k. IsShortOf k (sql, params)) (omega arith) st)))
        ]
      ]
    ]

add_condition-Makes :
    (key v : Bytes) (vs : List Bytes) (sql : Bytes) (params : List Bytes) (l : ℕ)
    → IsColumn (split_key key).0
    → IsShortOf l (sql, params)
    → Makes
        ((if is_like (split_key key).1 then 1 else 0) + l)
        (add_condition key v vs (sql, params))
unfolding add_condition after marks_from move mark_at
add_condition-Makes key v vs sql params l h (k, b, e) =
    let column = (split_key key).0 in
    let op = (split_key key).1 in
    let name = codes "`" ++ (column ++ codes "`") in
    elim (Bool-cases (same (symbol_of op) (codes "IN"))) [
      | inl in_list ↦
          let opened =
            append-IsBalanced k (0 + 0) sql (name ++ codes " IN (") b
              (name_then column (codes " IN (") 0 h (record { closed = refl; counted = refl })) in
          rw (in_list, add_condition)
            (no_like l op _
              (not-like op (codes "IN") refl ((same_iff (symbol_of op) (codes "IN")).0 in_list))
              (values-Makes l (sql ++ (name ++ codes " IN (")) params (v ∷ vs)
                (k + (0 + 0), opened, omega (arith, e))))
      | inr not_in ↦ elim (Bool-cases (same (symbol_of op) (codes "LIKE"))) [
        | inl like ↦
            rw (not_in, like, add_condition) (like-Makes column op sql v params l h (k, b, e))
        | inr other ↦
            let part = codes " FIND_IN_SET(?," ++ (name ++ codes ") AND ") in
            let test = name ++ (symbol_of op ++ codes "? AND ") in
            elim (Bool-cases (same (symbol_of op) (codes "FIND_IN_SET"))) [
              | inl find_in ↦
                  rw (not_in, other, find_in, add_condition)
                    (no_like l op (some (sql ++ part, params ++ v ∷ []))
                      (not-like op (symbol_of op) other refl)
                      (one_more l sql part params v (k, b, e)
                        (append-IsBalanced 1 (0 + 0) (codes " FIND_IN_SET(?,")
                          (name ++ codes ") AND ") (record { closed = refl; counted = refl })
                          (name_then column (codes ") AND ") 0 h
                            (record { closed = refl; counted = refl })))))
              | inr compared ↦
                  rw (not_in, other, compared, add_condition)
                    (no_like l op (some (sql ++ test, params ++ v ∷ []))
                      (not-like op (symbol_of op) other refl)
                      (one_more l sql test params v (k, b, e)
                        (name_then column (symbol_of op ++ codes "? AND ") 1 h (
                          append-IsBalanced 0 1 (symbol_of op) (codes "? AND ")
                            (symbol_of-IsBalanced op) (record { closed = refl; counted = refl })))))
            ]
      ]
    ]

add_conditions-Makes :
    (m : Conditions) (st : Statement) (l : ℕ)
    → HasColumns m
    → IsShortOf l st
    → Makes (likes m + l) (add_conditions m st)
unfolding add_conditions
add_conditions-Makes [] st l h v = subst (λ n. IsShortOf n st) (omega arith) v
add_conditions-Makes ((key, []) ∷ m) st l (hk, h) v = add_conditions-Makes m st l h v
add_conditions-Makes ((key, x ∷ xs) ∷ m) (sql, params) l (hk, h) v =
    go (add_condition key x xs (sql, params)) (add_condition-Makes key x xs sql params l hk v)
      (λ st' w. add_conditions-Makes m st' ((if is_like (split_key key).1 then 1 else 0) + l) h w)
  where
    go :
        (o : Option Statement)
        → Makes ((if is_like (split_key key).1 then 1 else 0) + l) o
        → ((st' : Statement)
            → IsShortOf ((if is_like (split_key key).1 then 1 else 0) + l) st'
            → Makes
                (likes m + ((if is_like (split_key key).1 then 1 else 0) + l))
                (add_conditions m st'))
        → Makes
            (likes ((key, x ∷ xs) ∷ m) + l)
            (elim o [ none ↦ none | some st' ↦ add_conditions m st' ])
    go none w more = tt
    go (some st') w more = subst (λ n. Makes n (add_conditions m st')) (omega arith) (more st' w)

-- Of the clause that `format_where_cond` makes the server counts one mark for each parameter, but for one
-- mark less for each LIKE with a value. No name of a column holds a tick.
pub format_where_cond-Makes :
    (conditions : Conditions)
    → HasColumns conditions
    → Makes (likes conditions) (format_where_cond conditions)
unfolding format_where_cond after marks_from
format_where_cond-Makes [] h = (0, record { closed = refl; counted = refl }, refl)
format_where_cond-Makes (c ∷ m) h = go (add_conditions (c ∷ m) ([], [])) (
    subst (λ n. Makes n (add_conditions (c ∷ m) ([], []))) (omega arith)
      (add_conditions-Makes (c ∷ m) ([], []) 0 h
        (0, record { closed = refl; counted = refl }, refl)))
  where
    cut :
        (sql : Bytes) (params : List Bytes) (o : Outcome)
        → rtrim sql (codes "AND ") ≡ o
        → IsShortOf (likes (c ∷ m)) (sql, params)
        → Makes (likes (c ∷ m)) (elim (left_over o) [ none ↦ none | some s ↦ some (s, params) ])
    cut sql params strays q w = tt
    cut sql params hangs q w = tt
    cut sql params (leaves s) q (k, b, e) =
        (k, Cut-IsBalanced _ k sql s _ and-IsNeutral (rtrim-Cut sql (codes "AND ")) q b, e)

    go :
        (o : Option Statement)
        → Makes (likes (c ∷ m)) o
        → Makes (likes (c ∷ m)) (elim o [
          | none ↦ none
          | some (sql, params) ↦ elim (left_over (rtrim sql (codes "AND "))) [
            | none ↦ none
            | some s ↦ some (s, params)
          ]
        ])
    go none w = tt
    go (some (sql, params)) w = cut sql params (rtrim sql (codes "AND ")) refl w
