-- ===== src/Sql/Results/Tests.antt =====
-- Rows of a concrete server, and the theorems about what is read of them.
use studytest.Base.{◌≡◌, refl, List, [], ◌∷◌, Option, some, none, true, Bytes, codes, pos}
use studytest.Base.Maps.{get}
use studytest.Sql.{Fields, Conditions, Statement}
use studytest.Sql.Marks.{plain, marks_from}
use studytest.Sql.Execute.{Mysql}
use studytest.Sql.Listing.{get_list}
use studytest.Sql.Results.{Cell, returns, fetch_one, fetch_row, get_list_rows}
use studytest.Sql.Results.Laws.{text_of, Least, fetch_lem}
use studytest.Sql.Results.Keys.{last_under, get_list_rows-last}

abbrev server : Mysql
server = record {
  prepares = λ sql. true;
  param_count = λ sql. marks_from plain sql;
  binds = λ params. true;
  runs = λ st. true;
  affected_rows = λ st. pos 0;
  insert_id = λ st. pos 0;
}

-- two rows of the same engine; the second column is the least by its name
abbrev row1 : List Cell
row1 = some (codes "name", codes "so") ∷ some (codes "id", codes "3") ∷ none ∷ []

abbrev row2 : List Cell
row2 = some (codes "name", codes "so") ∷ some (codes "id", codes "5") ∷ []

abbrev reads : Statement → Option (List (List Cell))
reads st = some (row1 ∷ row2 ∷ [])

abbrev query : Statement
query = (codes "SELECT name, id FROM e", [])

fetch_lem_example :
    ((row : Fields) × (fetch_row server reads query [] ≡ returns (pos 0) row)
      × ((j : Bytes) → get j row ≡ text_of j row1))
    × ((name text : Bytes) × (fetch_one server reads query [] ≡ returns (pos 0) text)
        × Least row1 name text)
unfolding studytest.Sql.Execute.bind_param_execute marks_from
fetch_lem_example =
    fetch_lem server reads query row1 (row2 ∷ []) (codes "name") (codes "so") [] [] refl refl refl

get_list_rows-last_example :
    (filled : List (Bytes × Fields)) × (get_list_rows server reads
        (codes "e")
        []
        (pos 1)
        (pos 5)
        (codes "name")
        []
        []
      ≡ returns (pos 0) filled)
    × ((k : Bytes) → get k filled ≡ last_under (codes "name") k (row1 ∷ row2 ∷ []) (get k []))
unfolding studytest.Sql.Execute.bind_param_execute marks_from get_list
    studytest.Sql.Listing.format_orderby_limit studytest.Sql.Listing.order_clause
    studytest.Sql.Listing.int_text studytest.Sql.Listing.number_text studytest.Sql.format_where_cond
    studytest.Sql.where_clause
get_list_rows-last_example =
    get_list_rows-last server reads (codes "e") [] (pos 1) (pos 5) (codes "name") [] []
      (codes "SELECT * FROM `e`  LIMIT 0,5", []) (row1 ∷ row2 ∷ []) refl refl refl
      ((codes "so", refl), ((codes "so", refl), tt))
