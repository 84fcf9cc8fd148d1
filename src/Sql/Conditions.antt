-- ===== src/Sql/Conditions.antt =====
-- The marks and the parameters of a list of conditions, as `format_where_cond` makes it.
use mathlib.Core.Path.{subst}
use studytest.Base.{
  ℕ, ◌+◌, ◌≡◌, refl, sym, ap, ◌∙◌, List, [], ◌∷◌, ◌++◌, Option, some, none, Bool, true, false, ◌||◌,
  Bytes, codes, length, length-append, same, same_iff, if◌then◌else◌, All, arith, Bool-cases, inl,
  inr,
}
use studytest.Strings.{Outcome, leaves}
use studytest.Strings.Cuts.{Cut}
use studytest.Strings.Trim.{Drops}
use studytest.Sql.{Conditions, Fields, Statement, param_map, lookup, split_key, symbol_of}
use studytest.Sql.Marks.{
  IsBalanced, append-IsBalanced, IsColumn, IsNeutral, trimmed-IsBalanced, plain, after, marks_from,
  move, mark_at,
}

-- A statement whose marks and so many parameters more than marks are its parameters.
abbrev pub IsShortOf : ℕ → Statement → Type 0
IsShortOf l (sql, params) = (k : ℕ) × IsBalanced k sql × (k + l ≡ length params)

-- the same of a statement, if one is made
abbrev pub Makes : ℕ → Option Statement → Type 0
Makes l none = Unit
Makes l (some st) = IsShortOf l st

-- an operator that is written as a LIKE
abbrev pub is_like : Bytes → Bool
is_like op = same (codes "llike") op || (same (codes "like") op || same (codes "rlike") op)

-- how many conditions with a value are a LIKE
abbrev pub likes : Conditions → ℕ
likes [] = 0
likes ((key, []) ∷ m) = likes m
likes ((key, v ∷ vs) ∷ m) = (if is_like (split_key key).1 then 1 else 0) + likes m

-- no column's name holds a tick
abbrev pub HasColumns : Conditions → Type 0
HasColumns = All (λ c. IsColumn (split_key c.0).0)

like-symbol_of : (op : Bytes) → is_like op ≡ true → symbol_of op ≡ codes "LIKE"
unfolding symbol_of
like-symbol_of op h = elim (Bool-cases (same (codes "llike") op)) [
  | inl e ↦ ap symbol_of (sym ((same_iff (codes "llike") op).0 e))
  | inr n ↦ elim (Bool-cases (same (codes "like") op)) [
    | inl e ↦ ap symbol_of (sym ((same_iff (codes "like") op).0 e))
    | inr n' ↦ elim (Bool-cases (same (codes "rlike") op)) [
      | inl e ↦ ap symbol_of (sym ((same_iff (codes "rlike") op).0 e))
      | inr n'' ↦ cc
    ]
  ]
]

-- A symbol that is another one than LIKE is no LIKE's.
pub not-like :
    (op symbol : Bytes)
    → same symbol (codes "LIKE") ≡ false
    → symbol_of op ≡ symbol
    → is_like op ≡ false
not-like op symbol differs e = elim (Bool-cases (is_like op)) [
  | inl like ↦
      let alike : same symbol (codes "LIKE") ≡ true =
        (same_iff symbol (codes "LIKE")).1 (sym e ∙ like-symbol_of op like) in
      cc
  | inr other ↦ other
]

-- what `paramMap` and its default hold is balanced
pub symbol_of-IsBalanced : (op : Bytes) → IsBalanced 0 (symbol_of op)
unfolding symbol_of after marks_from move mark_at
symbol_of-IsBalanced op = go op param_map (
    (
      (refl, refl),
      (
        (refl, refl),
        (
          (refl, refl),
          (
            (refl, refl),
            (
              (refl, refl),
              (
                (refl, refl),
                ((refl, refl), ((refl, refl), ((refl, refl), ((refl, refl), ((refl, refl), tt))))),
              ),
            ),
          ),
        ),
      ),
    ))
  where
    go :
        (op : Bytes) (m : Fields)
        → All (λ f. (after plain f.1 ≡ plain) × (marks_from plain f.1 ≡ 0)) m
        → IsBalanced 0 (elim (lookup op m) [ none ↦ codes "=" | some s ↦ s ])
    go op [] h = record { closed = refl; counted = refl }
    go op ((j, v) ∷ m) ((hc, hn), h) = elim (Bool-cases (same j op)) [
      | inl e ↦ rw e (record { closed = hc; counted = hn })
      | inr n ↦ rw n (go op m h)
    ]

-- One more part with one mark and one parameter.
pub one_more :
    (l : ℕ) (sql part : Bytes) (params : List Bytes) (v : Bytes)
    → IsShortOf l (sql, params)
    → IsBalanced 1 part
    → IsShortOf l (sql ++ part, params ++ v ∷ [])
one_more l sql part params v (k, h, e) b =
    (k + 1, append-IsBalanced k 1 sql part h b, omega (arith, e, length-append params (v ∷ [])))

-- One more part with a mark in a text, and one parameter.
pub one_short :
    (l : ℕ) (sql part : Bytes) (params : List Bytes) (v : Bytes)
    → IsShortOf l (sql, params)
    → IsBalanced 0 part
    → IsShortOf (1 + l) (sql ++ part, params ++ v ∷ [])
one_short l sql part params v (k, h, e) b =
    (k + 0, append-IsBalanced k 0 sql part h b, omega (arith, e, length-append params (v ∷ [])))

All-Neutral :
    (p : ℕ → Bool) (s : Bytes) → ((c : ℕ) → p c ≡ true → IsNeutral c) → Drops p s → All IsNeutral s
All-Neutral p [] h d = tt
All-Neutral p (c ∷ s) h (dc, d) = (h c dc, All-Neutral p s h d)

pub Cut-IsBalanced :
    (p : ℕ → Bool) (n : ℕ) (s r : Bytes) (o : Outcome)
    → ((c : ℕ) → p c ≡ true → IsNeutral c)
    → Cut p s o
    → o ≡ leaves r
    → IsBalanced n s
    → IsBalanced n r
Cut-IsBalanced p n s r o h cut e v =
    let (pre, post, split, before, behind) = cut r e in
    trimmed-IsBalanced n pre r post (All-Neutral p pre h before) (All-Neutral p post h behind)
      (subst (IsBalanced n) split v)
