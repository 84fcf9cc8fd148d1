-- ===== src/Config/Item.antt =====
-- down_parse_client/clientConfig.cpp: get_engine_item, which finds the engine and the item file of a
-- downloaded page in the path of the page.
pub mod Paths
use studytest.Base.{List, [], ◌∷◌, ◌++◌, reverse, Bytes, codes}
use studytest.Strings.{Outcome, leaves, strays, hangs, rtrim, explode}

-- What the call does with its two references: `kept` leaves both as they are, `stray` reads outside a
-- string, `found` sets both.
pub data Item : Type 0 where
  kept : Item
  stray : Item
  found : Bytes → Bytes → Item

-- the path of an item file
abbrev pub item_path : Bytes → Bytes → Bytes → Bytes
item_path task_dir dir name =
    task_dir ++ (codes "/" ++ (dir ++ (codes "/" ++ (name ++ codes ".item"))))

abbrev pub of_name : Bytes → Bytes → Bytes → Outcome → Item
of_name task_dir dir engine_id (leaves name) = found engine_id (item_path task_dir dir name)
of_name task_dir dir engine_id strays = stray
of_name task_dir dir engine_id hangs = stray

-- `eng.size() != 2`
abbrev pub of_engine : Bytes → Bytes → Bytes → List Bytes → Item
of_engine task_dir dir file [] = kept
of_engine task_dir dir file (a ∷ []) = kept
of_engine task_dir dir file (a ∷ (b ∷ [])) = of_name task_dir dir b (rtrim file (codes ".html"))
of_engine task_dir dir file (a ∷ (b ∷ (c ∷ more))) = kept

-- the parts of the path, the last one first: `tmp.size() < 3`
abbrev pub of_parts : Bytes → List Bytes → Item
of_parts task_dir [] = kept
of_parts task_dir (file ∷ []) = kept
of_parts task_dir (file ∷ (dir ∷ [])) = kept
of_parts task_dir (file ∷ (dir ∷ (x ∷ more))) =
    of_engine task_dir dir file (explode dir (codes "_") [])

unfoldable pub get_engine_item : Bytes → Bytes → Item
get_engine_item task_dir html_file = of_parts task_dir (reverse (explode html_file (codes "/") []))
