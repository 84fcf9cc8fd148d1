-- ===== src/Sql/Results/Laws.antt =====
-- What fetch_one and fetch_row give.
use mathlib.Core.Path.{subst}
use studytest.Base.{
  ◌⊎◌, ◌≡◌, refl, sym, ap, ◌∙◌, List, [], ◌∷◌, Option, some, none, true, Bytes, same, same_iff,
  if◌then◌else◌, Bool-cases, inl, inr, pos, is_zero,
}
use studytest.Base.Maps.{less, get, put_new}
use studytest.Base.Maps.Order.{
  IsSorted, IsBefore, put_new-IsSorted, get-put_new, kept_or, kept_or-none,
}
use studytest.Sql.{Fields, Statement}
use studytest.Sql.Execute.{Mysql, bind_param_execute}
use studytest.Sql.Results.{Cell, add_cells, get_execute_result, returns, fetch_one, fetch_row}

-- the first column of a name
abbrev pub text_of : Bytes → List Cell → Option Bytes
text_of k [] = none
text_of k (none ∷ cells) = text_of k cells
text_of k (some (name, text) ∷ cells) = if same name k then some text else text_of k cells

add_cells-IsSorted :
    (cells : List Cell) (row : Fields) → IsSorted row → IsSorted (add_cells cells row)
unfolding add_cells
add_cells-IsSorted [] row h = h
add_cells-IsSorted (none ∷ cells) row h = add_cells-IsSorted cells row h
add_cells-IsSorted (some (name, text) ∷ cells) row h =
    add_cells-IsSorted cells (put_new name text row) (put_new-IsSorted name text row h)

kept_or_assoc : {A : Type 0} (o n p : Option A) → kept_or (kept_or o n) p ≡ kept_or o (kept_or n p)
kept_or_assoc none n p = refl
kept_or_assoc (some w) n p = refl

kept_or-if :
    (name k text : Bytes) (o : Option Bytes)
    → kept_or (if same name k then some text else none) o ≡ (if same name k then some text else o)
kept_or-if name k text o = elim (Bool-cases (same name k)) [ inl e ↦ rw e refl | inr n ↦ rw n refl ]

-- The row holds of each name the first column.
get-add_cells :
    (k : Bytes) (cells : List Cell) (row : Fields)
    → IsSorted row
    → get k (add_cells cells row) ≡ kept_or (get k row) (text_of k cells)
unfolding add_cells
get-add_cells k [] row h = sym (kept_or-none (get k row))
get-add_cells k (none ∷ cells) row h = get-add_cells k cells row h
get-add_cells k (some (name, text) ∷ cells) row h =
    get-add_cells k cells (put_new name text row) (put_new-IsSorted name text row h)
    ∙ ap (λ o. kept_or o (text_of k cells)) (get-put_new k name text row h)
    ∙ kept_or_assoc (get k row) (if same name k then some text else none) (text_of k cells)
    ∙ ap (kept_or (get k row)) (kept_or-if name k text (text_of k cells))

-- the row that the cells of a row become
pub get-row : (k : Bytes) (cells : List Cell) → get k (add_cells cells []) ≡ text_of k cells
unfolding get
get-row k cells = get-add_cells k cells [] tt

get-IsBefore :
    (name k v : Bytes) (m : Fields) → IsBefore name m → get k m ≡ some v → less name k ≡ true
unfolding get
get-IsBefore name k v [] b e = cc
get-IsBefore name k v ((j, w) ∷ m) (hj, b) e = elim (Bool-cases (same j k)) [
  | inl f ↦ ap (less name) (sym ((same_iff j k).0 f)) ∙ hj
  | inr n ↦ get-IsBefore name k v m b (rw n at e)
]

-- What the first pair of a sorted map is.
abbrev pub Least : (cells : List Cell) → Bytes → Bytes → Type 0
Least cells name text =
    (text_of name cells ≡ some text)
    × ((k v : Bytes) → text_of k cells ≡ some v → (k ≡ name) ⊎ (less name k ≡ true))

first-Least :
    (cells : List Cell) (row : Fields) (k v : Bytes)
    → add_cells cells [] ≡ row
    → text_of k cells ≡ some v
    → (name text : Bytes) × (m : Fields) × (row ≡ (name, text) ∷ m) × Least cells name text
unfolding get
first-Least cells [] k v e there = let never = sym (get-row k cells) ∙ ap (get k) e in cc
first-Least cells ((name, text) ∷ m) k v e there =
    let sorted : IsSorted ((name, text) ∷ m) = subst IsSorted e (add_cells-IsSorted cells [] tt) in
    let whole : (j : Bytes) → text_of j cells ≡ get j ((name, text) ∷ m) =
      λ j. sym (get-row j cells) ∙ ap (get j) e in
    (
      name,
      text,
      m,
      refl,
      (
        whole name ∙ rw ((same_iff name name).1 refl) refl,
        λ j w f. elim (Bool-cases (same name j)) [
          | inl alike ↦ inl (sym ((same_iff name j).0 alike))
          | inr other ↦ inr (get-IsBefore name j w m sorted.0 (rw other at (sym (whole j) ∙ f)))
        ],
      ),
    )

module _ (db : Mysql) (reads : Statement → Option (List (List Cell))) where
  -- Behind a query that succeeds and has a first row with a column that could be fetched, `fetch_row` gives a
  -- row that holds of each name the text of the first column of this name, and `fetch_one` gives the text of
  -- the column whose name is the least by its bytes, which need not be the first column of the statement.
  pub fetch_lem :
      (st : Statement) (cells : List Cell) (rows : List (List Cell)) (k v result : Bytes)
      (old : Fields)
      → (bind_param_execute db st).0 ≡ pos 0
      → reads st ≡ some (cells ∷ rows)
      → text_of k cells ≡ some v
      → ((row : Fields) × (fetch_row db reads st old ≡ returns (pos 0) row)
          × ((j : Bytes) → get j row ≡ text_of j cells))
        × ((name text : Bytes) × (fetch_one db reads st result ≡ returns (pos 0) text)
            × Least cells name text)
  unfolding fetch_row fetch_one get_execute_result
  fetch_lem st cells rows k v result old ok read there =
      let (name, text, m, row_is, least) = first-Least cells (add_cells cells []) k v refl there in
      let zero_is : is_zero (bind_param_execute db st).0 ≡ true = ap is_zero ok in
      (
        (
          (name, text) ∷ m,
          rw zero_is (rw (read) (rw row_is refl)),
          λ j. ap (get j) (sym row_is) ∙ get-row j cells,
        ),
        (name, text, rw zero_is (rw (read) (rw row_is refl)), least),
      )
