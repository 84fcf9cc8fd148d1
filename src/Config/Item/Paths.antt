-- ===== src/Config/Item/Paths.antt =====
-- The item file of a page under the path that the seed file gives it.
use mathlib.Core.List.{cons-ne-nil, reverse-append}
use studytest.Base.{
  ℕ, ◌≡◌, ◌≢◌, refl, sym, ap, ◌∙◌, List, [], ◌∷◌, ◌++◌, reverse, false, Bytes, codes, has, length,
  length-reverse, arith,
}
use studytest.Strings.{leaves, rtrim, explode}
use studytest.Strings.Split.{Lacks, explode-join}
use studytest.Strings.Parts.{Lacks-append, explode_two}
use studytest.Strings.Ends.{rtrim-end}
use studytest.Config.Item.{found, item_path, of_parts, of_engine, of_name, get_engine_item}

-- A name that ends in a character that `rtrim` by ".html" keeps, and holds no slash.
pub record IsName (name : Bytes) : Type 0 where
  pub front : Bytes
  pub last : ℕ
  pub ends : name ≡ front ++ last ∷ []
  pub stays : has (codes ".html") last ≡ false
  pub one_part : Lacks (codes "/") name

-- the path of a page
abbrev pub page_path : Bytes → Bytes → Bytes → Bytes → Bytes
page_path snapshot task_id eid name =
    snapshot
    ++ (codes "/" ++ ((task_id ++ (codes "_" ++ eid)) ++ (codes "/" ++ (name ++ codes ".html"))))

rtrim-name :
    (name : Bytes) → IsName name → rtrim (name ++ codes ".html") (codes ".html") ≡ leaves name
rtrim-name name h =
    ap (λ t. rtrim (t ++ codes ".html") (codes ".html")) h.ends
    ∙ rtrim-end h.front (codes ".html") (codes ".html") h.last
        (refl, (refl, (refl, (refl, (refl, tt))))) h.stays (cons-ne-nil _ _)
    ∙ ap leaves (sym h.ends)

engine_parts :
    (task_id eid : Bytes)
    → Lacks (codes "_") task_id
    → Lacks (codes "_") eid
    → explode (task_id ++ (codes "_" ++ eid)) (codes "_") [] ≡ task_id ∷ (eid ∷ [])
engine_parts task_id eid ht he =
    explode-join (task_id ∷ (eid ∷ [])) b'_' (ht, (he, tt)) (λ e. underscore task_id eid e)
  where
    underscore : (a b : Bytes) → a ++ (b'_' ∷ b) ≢ []
    underscore [] b e = cons-ne-nil _ _ e
    underscore (x ∷ a) b e = cons-ne-nil _ _ e

of_parts-more :
    (task_dir file dir : Bytes) (ps : List Bytes)
    → ps ≢ []
    → of_parts task_dir (file ∷ (dir ∷ ps))
      ≡ of_engine task_dir dir file (explode dir (codes "_") [])
of_parts-more task_dir file dir [] ne = absurd (ne refl)
of_parts-more task_dir file dir (p ∷ ps) ne = refl

reverse-ne : (ps : List Bytes) → ps ≢ [] → reverse ps ≢ []
reverse-ne [] ne e = ne refl
reverse-ne (p ∷ ps) ne e = absurd (omega (arith, length-reverse (p ∷ ps), ap length e))

-- The page of a task's query on an engine, at `snapshot/task_eid/name.html`, has the item file
-- `task_dir/task_eid/name.item`, whatever the snapshot directory is called: if no slash and no
-- underscore is in the task's number and the engine's, and the name has no slash and ends in none of the
-- characters of ".html".
pub get_engine_item-page_path :
    (task_dir snapshot task_id eid name : Bytes)
    → Lacks (codes "_") task_id
    → Lacks (codes "_") eid
    → Lacks (codes "/") task_id
    → Lacks (codes "/") eid
    → IsName name
    → get_engine_item task_dir (page_path snapshot task_id eid name)
      ≡ found eid (item_path task_dir (task_id ++ (codes "_" ++ eid)) name)
unfolding get_engine_item
get_engine_item-page_path task_dir snapshot task_id eid name ut ue st se h =
    let dir = task_id ++ (codes "_" ++ eid) in
    let file = name ++ codes ".html" in
    let dir_part : Lacks (codes "/") dir =
      Lacks-append task_id (codes "_" ++ eid) b'/' st (Lacks-append (codes "_") eid b'/' refl se) in
    let file_part : Lacks (codes "/") file =
      Lacks-append name (codes ".html") b'/' h.one_part refl in
    let (ps, ne, e) = explode_two snapshot dir file b'/' dir_part file_part in
    ap (λ t. of_parts task_dir (reverse t)) e
    ∙ ap (of_parts task_dir) (reverse-append ps (dir ∷ (file ∷ [])))
    ∙ of_parts-more task_dir file dir (reverse ps) (reverse-ne ps ne)
    ∙ ap (of_engine task_dir dir file) (engine_parts task_id eid ut ue)
    ∙ ap (of_name task_dir dir eid) (rtrim-name name h)
