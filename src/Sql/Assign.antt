-- ===== src/Sql/Assign.antt =====
-- The list of assignments that `format_sql` makes.
use studytest.Base.{
  ◌≡◌, refl, sym, ap, ◌∙◌, [], ◌∷◌, ◌++◌, append_assoc, append-nil, some, map, List, Bytes, codes,
}
use studytest.Strings.{leaves, is_char, trim_char}
use studytest.Strings.Split.{join}
use studytest.Strings.Ends.{trim_char-end}
use studytest.Sql.{Fields, assign_all, format_sql, trim_commas}

-- one assignment
abbrev pub assignment : Bytes × Bytes → Bytes
assignment (k, v) = codes "`" ++ (k ++ codes "`=?")

abbrev pub value : Bytes × Bytes → Bytes
value (k, v) = v

abbrev with_commas : Fields → Bytes
with_commas [] = []
with_commas (f ∷ m) = (assignment f ++ codes ",") ++ with_commas m

comma_behind :
    (k : Bytes) → codes "`" ++ (k ++ codes "`=?,") ≡ (codes "`" ++ (k ++ codes "`=?")) ++ codes ","
comma_behind k = ap (◌++◌ (codes "`")) (sym (append_assoc k (codes "`=?") (codes ",")))

assign_all_lem :
    (m : Fields) (sql : Bytes) (params : List Bytes)
    → assign_all m (sql, params) ≡ (sql ++ with_commas m, params ++ map value m)
unfolding assign_all
assign_all_lem [] sql params = rw (append-nil sql, append-nil params) refl
assign_all_lem ((k, v) ∷ m) sql params =
    assign_all_lem m (sql ++ (codes "`" ++ (k ++ codes "`=?,"))) (params ++ v ∷ [])
    ∙ ap (λ (b : List Bytes). ((sql ++ (codes "`" ++ (k ++ codes "`=?,"))) ++ with_commas m, b))
        (append_assoc params (v ∷ []) (map value m))
    ∙ ap (λ (a : Bytes). (a, params ++ v ∷ map value m))
        (ap (λ t. (sql ++ t) ++ with_commas m) (comma_behind k)
          ∙ append_assoc sql (assignment (k, v) ++ codes ",") (with_commas m))

with_commas-join :
    (f : Bytes × Bytes) (m : Fields)
    → with_commas (f ∷ m) ≡ join (map assignment (f ∷ m)) (codes ",") ++ codes ","
with_commas-join f [] = append-nil (assignment f ++ codes ",")
with_commas-join f (g ∷ m) =
    ap (◌++◌ (assignment f ++ codes ",")) (with_commas-join g m)
    ∙ append_assoc (assignment f) (codes ",")
        (join (map assignment (g ∷ m)) (codes ",") ++ codes ",")
    ∙ sym (
        append_assoc (assignment f) (codes "," ++ join (map assignment (g ∷ m)) (codes ","))
          (codes ","))

-- the list of assignments ends in a mark
join-ends :
    (f : Bytes × Bytes) (m : Fields)
    → (mid : Bytes) × (join (map assignment (f ∷ m)) (codes ",") ≡ mid ++ codes "?")
join-ends (k, v) [] = (
  codes "`" ++ (k ++ codes "`="),
  ap (◌++◌ (codes "`")) (sym (append_assoc k (codes "`=") (codes "?"))),
)
join-ends (k, v) (g ∷ m) =
    let (mid, e) = join-ends g m in
    (
      assignment (k, v) ++ (codes "," ++ mid),
      ap (λ t. assignment (k, v) ++ (codes "," ++ t)) e
          ∙ sym (append_assoc (assignment (k, v)) (codes "," ++ mid) (codes "?")),
    )

join-begins :
    (f : Bytes × Bytes) (m : Fields)
    → (t : Bytes) × (join (map assignment (f ∷ m)) (codes ",") ≡ b'`' ∷ t)
join-begins (k, v) [] = (k ++ codes "`=?", refl)
join-begins (k, v) (g ∷ m) =
    ((k ++ codes "`=?") ++ (codes "," ++ join (map assignment (g ∷ m)) (codes ",")), refl)

trim_commas-leaves :
    (sql s : Bytes) (params : List Bytes)
    → trim_char sql b',' ≡ leaves s
    → trim_commas (sql, params) ≡ some (s, params)
unfolding trim_commas
trim_commas-leaves sql s params e = rw (trim_commas, e) refl

-- `format_sql` of at least one field makes one assignment of a mark to each column, in the order of the
-- map, with commas between them only, and gives the values in the same order.
pub format_sql-join :
    (f : Bytes × Bytes) (m : Fields)
    → format_sql (f ∷ m) ≡ some (join (map assignment (f ∷ m)) (codes ","), map value (f ∷ m))
unfolding format_sql is_char
format_sql-join f m =
    let sql = join (map assignment (f ∷ m)) (codes ",") in
    let (t, begins) = join-begins f m in
    let (mid, ends) = join-ends f m in
    let trimmed : trim_char (sql ++ codes ",") b',' ≡ leaves sql =
      trim_char-end sql t b'`' b',' b'?' begins mid ends refl refl refl in
    let made : assign_all (f ∷ m) ([], []) ≡ (sql ++ codes ",", map value (f ∷ m)) =
      assign_all_lem (f ∷ m) [] []
      ∙ ap (λ (s : Bytes). (s, map value (f ∷ m))) (with_commas-join f m) in
    ap trim_commas made ∙ trim_commas-leaves (sql ++ codes ",") sql (map value (f ∷ m)) trimmed
