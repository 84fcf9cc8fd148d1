-- ===== src/Sql/Results/Keys.antt =====
-- What getList leaves under each key.
use studytest.Base.{
  ℕ, suc, ◌≡◌, refl, sym, ap, ◌∙◌, List, [], ◌∷◌, Option, some, none, true, false, Bytes, same,
  same_iff, if◌then◌else◌, All, Bool-cases, inl, inr, pos, ℤ, is_zero,
}
use studytest.Base.Maps.{less, get, put}
use studytest.Sql.{Fields, Conditions, Statement}
use studytest.Sql.Execute.{Mysql, bind_param_execute}
use studytest.Sql.Listing.{get_list}
use studytest.Sql.Results.{
  Cell, add_cells, with_row, get_execute_result, returns, fetch_all, key_of, format_rows, formatted,
  get_list_rows,
}
use studytest.Sql.Results.Laws.{text_of, get-row}

module _ {ℓ} {A : Type ℓ} where
  -- a key that was just written is found, and another is as before
  get-put :
      (i k : Bytes) (v : A) (m : List (Bytes × A))
      → get i (put k v m) ≡ (if same k i then some v else get i m)
  unfolding get put
  get-put i k v [] = refl
  get-put i k v ((j, w) ∷ m) = elim (Bool-cases (same j k)) [
    | inl e ↦
        let alike : same k i ≡ same j i = ap (λ t. same t i) (sym ((same_iff j k).0 e)) in
        rw e (rw alike (elim (Bool-cases (same j i)) [ inl f ↦ rw f refl | inr f ↦ rw f refl ]))
    | inr n ↦ elim (Bool-cases (less k j)) [
      | inl first ↦ rw n (rw first refl)
      | inr later ↦ rw n (
          rw later (elim (Bool-cases (same j i)) [
            | inl f ↦
                let other : same k i ≡ false = elim (Bool-cases (same k i)) [
                  | inl g ↦
                      let both = (same_iff j k).1 ((same_iff j i).0 f ∙ sym ((same_iff k i).0 g)) in
                      cc
                  | inr g ↦ g
                ] in
                rw f (rw other refl)
            | inr f ↦ rw f (get-put i k v m)
          ]))
    ]
  ]

-- the last row whose column `format_field` holds the key, else what was there
abbrev pub last_under : Bytes → Bytes → List (List Cell) → Option Fields → Option Fields
last_under format_field k [] held = held
last_under format_field k (cells ∷ rows) held =
    last_under format_field k rows (elim (text_of format_field cells) [
      | none ↦ held
      | some key ↦ if same key k then some (add_cells cells []) else held
    ])

-- every row has the column
abbrev pub Keyed : Bytes → List (List Cell) → Type 0
Keyed format_field = All (λ cells. (v : Bytes) × (text_of format_field cells ≡ some v))

-- a row in which a column is found is not empty, and so it is kept
with_row-kept :
    (n : ℕ) (row : Fields) (k v : Bytes) (rest : List (ℕ × Fields))
    → get k row ≡ some v
    → with_row n row rest ≡ (n, row) ∷ rest
unfolding get
with_row-kept n [] k v rest e = cc
with_row-kept n (f ∷ row) k v rest e = refl

format_rows-last :
    (format_field : Bytes) (n : ℕ) (rows : List (List Cell)) (ret : List (Bytes × Fields))
    → Keyed format_field rows
    → (filled : List (Bytes × Fields)) × (format_rows format_field (get_execute_result n rows) ret
        ≡ some filled)
      × ((k : Bytes) → get k filled ≡ last_under format_field k rows (get k ret))
unfolding format_rows get_execute_result key_of
format_rows-last format_field n [] ret h = (ret, refl, λ k. refl)
format_rows-last format_field n (cells ∷ rows) ret ((v, e), h) =
    let found : get format_field (add_cells cells []) ≡ some v = get-row format_field cells ∙ e in
    let row = add_cells cells [] in
    let (filled, done, holds) = format_rows-last format_field (suc n) rows (put v row ret) h in
    (
      filled,
      rw (with_row-kept n row format_field v (get_execute_result (suc n) rows) found)
          (rw (found, format_rows, key_of) done),
      λ k. holds k ∙ rw e (ap (last_under format_field k rows) (get-put k v row ret)),
    )

module _ (db : Mysql) (reads : Statement → Option (List (List Cell))) where
  -- Where the query succeeds and every row has the column `format_field`, `getList` returns 0, and under each
  -- key it leaves the last row whose column holds this key, the rows before it with the same key being lost; a
  -- key of no row keeps what the result held before.
  pub get_list_rows-last :
      (table : Bytes) (conditions : Conditions) (page pagesize : ℤ) (format_field : Bytes)
      (orderby : Fields) (ret : List (Bytes × Fields)) (st : Statement) (rows : List (List Cell))
      → get_list table conditions page pagesize orderby ≡ some st
      → is_zero (bind_param_execute db st).0 ≡ true
      → reads st ≡ some rows
      → Keyed format_field rows
      → (filled : List (Bytes × Fields)) × (get_list_rows db reads table conditions page pagesize
            format_field orderby ret
          ≡ returns (pos 0) filled)
        × ((k : Bytes) → get k filled ≡ last_under format_field k rows (get k ret))
  unfolding get_list_rows fetch_all
  get_list_rows-last table conditions page pagesize format_field orderby ret st rows made ok read
        h =
      let (filled, done, holds) = format_rows-last format_field 0 rows ret h in
      (
        filled,
        rw (made, get_list_rows) (rw (ok, fetch_all) (rw read (rw (done, formatted) refl))),
        holds,
      )
