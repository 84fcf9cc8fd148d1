-- ===== src/Seeds/Lines.antt =====
-- A line of the seed file, as the feeding threads read it again.
use mathlib.Core.List.{cons-ne-nil}
use studytest.Base.{
  ℕ, ◌≡◌, ◌≢◌, refl, sym, ap, ◌∙◌, [], ◌∷◌, ◌++◌, append_assoc, false, some, Bytes, codes, length,
  has, find, All, arith,
}
use studytest.Strings.{leaves, trim, explode}
use studytest.Strings.Split.{Lacks, find-Lacks, explode-join}
use studytest.Strings.Parts.{Lacks-append}
use studytest.Strings.Ends.{trim-end}
use studytest.Md5.Hex.{Apart, hex-Apart, md5-ne}
use studytest.Md5.Spec.{md5}
use studytest.Config.Item.{found, item_path, get_engine_item}
use studytest.Config.Item.Paths.{IsName, get_engine_item-page_path}
use studytest.DownFeed.{page, of_items, of_trimmed, seed_line}
use studytest.Seeds.{seed_text, snap_dir}
use studytest.Seeds.Laws.{name_of}

-- what `trim` takes off a line
abbrev pub blanks : Bytes
blanks = codes "\t\n\r "

-- A text that begins and ends with a character that is no blank.
pub record IsFramed (s e : Bytes) : Type 0 where
  pub first : ℕ
  pub behind : Bytes
  pub begins : s ≡ first ∷ behind
  pub first_stays : has blanks first ≡ false
  pub front : Bytes
  pub last : ℕ
  pub ends : e ≡ front ++ last ∷ []
  pub last_stays : has blanks last ≡ false

-- `explode` finds the three parts of a line again.
pub seed_text-parts :
    (eurl path query : Bytes)
    → Lacks (codes "\t") eurl
    → Lacks (codes "\t") path
    → Lacks (codes "\t") query
    → explode (seed_text eurl path query) (codes "\t") [] ≡ eurl ∷ (path ∷ (query ∷ []))
seed_text-parts eurl path query he hp hq =
    explode-join (eurl ∷ (path ∷ (query ∷ []))) b'\t' (he, (hp, (hq, tt)))
      (λ e. not_nil eurl (path ++ (codes "\t" ++ query)) e)
  where
    not_nil : (a b : Bytes) → a ++ (b'\t' ∷ b) ≢ []
    not_nil [] b e = cons-ne-nil _ _ e
    not_nil (x ∷ a) b e = cons-ne-nil _ _ e

of_trimmed-parts :
    (eurl path query : Bytes)
    → Lacks (codes "\t") eurl
    → Lacks (codes "\t") path
    → Lacks (codes "\t") query
    → of_trimmed (leaves (seed_text eurl path query)) ≡ page (seed_text eurl path query) path
of_trimmed-parts eurl path query he hp hq =
    let line = seed_text eurl path query in
    let tab : find line (codes "\t") ≡ some (length eurl) =
      find-Lacks eurl b'\t' (path ++ (codes "\t" ++ query)) he in
    rw (tab, of_trimmed) (ap (of_items line) (seed_text-parts eurl path query he hp hq))

seed_line-trim :
    (s : Bytes) (c : ℕ) (t : Bytes)
    → s ≡ c ∷ t
    → trim (s ++ codes "\n") blanks ≡ leaves s
    → seed_line (s ++ codes "\n") ≡ of_trimmed (leaves s)
unfolding seed_line
seed_line-trim s c t e trimmed =
    ap (λ r. seed_line (r ++ codes "\n")) e
    ∙ ap of_trimmed (ap (λ r. trim (r ++ codes "\n") blanks) (sym e) ∙ trimmed)

pub seed_line-seed_text :
    (eurl path query : Bytes)
    → Lacks (codes "\t") eurl
    → Lacks (codes "\t") path
    → Lacks (codes "\t") query
    → IsFramed eurl query
    → seed_line (seed_text eurl path query ++ codes "\n") ≡ page (seed_text eurl path query) path
seed_line-seed_text eurl path query he hp hq f =
    let s = seed_text eurl path query in
    let begins : s ≡ f.first ∷ (f.behind ++ (codes "\t" ++ (path ++ (codes "\t" ++ query)))) =
      ap (λ t. seed_text t path query) f.begins in
    let ends : s ≡ (eurl ++ (codes "\t" ++ (path ++ (codes "\t" ++ f.front)))) ++ f.last ∷ [] =
      ap (seed_text eurl path) f.ends
      ∙ sym (
          append_assoc eurl (codes "\t" ++ (path ++ (codes "\t" ++ f.front))) (f.last ∷ [])
          ∙ ap (λ t. eurl ++ (codes "\t" ++ t))
              (append_assoc path (codes "\t" ++ f.front) (f.last ∷ []))) in
    seed_line-trim s f.first _ begins (
      trim-end s _ (codes "\n") blanks f.first f.last begins _ ends (refl, tt) f.first_stays
        f.last_stays (cons-ne-nil _ _))
    ∙ of_trimmed-parts eurl path query he hp hq

abbrev Ending : (ℕ → Type 0) → Bytes → Type 0
Ending P s = (front : Bytes) × (last : ℕ) × (s ≡ front ++ last ∷ []) × P last

ending : (P : ℕ → Type 0) (s : Bytes) → s ≢ [] → All P s → Ending P s
ending P [] ne h = absurd (ne refl)
ending P (c ∷ []) ne (hc, h) = ([], c, refl, hc)
ending P (c ∷ (d ∷ s)) ne (hc, h) =
    let (front, last, e, p) = ending P (d ∷ s) (cons-ne-nil d s) h in
    (c ∷ front, last, ap (◌∷◌ c) e, p)

Apart-one : (ch : ℕ) (s : Bytes) → All (Apart (ch ∷ [])) s → Lacks (ch ∷ []) s
Apart-one ch [] h = refl
Apart-one ch (c ∷ s) (hc, h) = ground (arith, Apart-one ch s h)

-- The text of a digest is a name for files.
pub name_of-IsName : (query : Bytes) → IsName (name_of query)
name_of-IsName query =
    let input = md5 query in
    let (front, last, e, p) =
      ending (Apart (codes ".html")) (name_of query) (md5-ne query)
        (hex-Apart (codes ".html") input (ground arith) refl) in
    record {
      front = front;
      last = last;
      ends = e;
      stays = p;
      one_part = Apart-one b'/' (name_of query) (hex-Apart (codes "/") input (ground arith) refl);
    }

pub page_path-Lacks :
    (snapshot task_id eid query : Bytes)
    → Lacks (codes "\t") (snap_dir snapshot task_id eid)
    → Lacks
        (codes "\t")
        (snap_dir snapshot task_id eid ++ (codes "/" ++ (name_of query ++ codes ".html")))
page_path-Lacks snapshot task_id eid query td =
    let name = name_of query in
    Lacks-append (snap_dir snapshot task_id eid) (codes "/" ++ (name ++ codes ".html")) b'\t' td (
      Lacks-append (codes "/") (name ++ codes ".html") b'\t' refl (
        Lacks-append name (codes ".html") b'\t'
          (Apart-one b'\t' name (hex-Apart (codes "\t") (md5 query) (ground arith) refl)) refl))

pub get_engine_item-found :
    (task_dir snapshot task_id eid query : Bytes)
    → Lacks (codes "_") task_id
    → Lacks (codes "_") eid
    → Lacks (codes "/") task_id
    → Lacks (codes "/") eid
    → get_engine_item task_dir
        (snap_dir snapshot task_id eid ++ (codes "/" ++ (name_of query ++ codes ".html")))
      ≡ found eid (item_path task_dir (task_id ++ (codes "_" ++ eid)) (name_of query))
get_engine_item-found task_dir snapshot task_id eid query ut ue st se =
    ap (get_engine_item task_dir) (
      append_assoc snapshot (codes "/" ++ (task_id ++ (codes "_" ++ eid)))
        (codes "/" ++ (name_of query ++ codes ".html")))
    ∙ get_engine_item-page_path task_dir snapshot task_id eid (name_of query) ut ue st se
        (name_of-IsName query)

-- Behind the writing of a line stands the reading of it: whichever thread takes the line from the seed
-- file finds the page at the path that the line gives, and in this path the engine and the item file of
-- the query's digest. The address, the directory of the page and the query hold no tab, the address begins
-- and the query ends with a character that is no blank, and neither the task's number nor the engine's
-- holds a slash or an underscore.
pub seed_line-found :
    (task_dir snapshot task_id eid eurl query : Bytes)
    → Lacks (codes "_") task_id
    → Lacks (codes "_") eid
    → Lacks (codes "/") task_id
    → Lacks (codes "/") eid
    → Lacks (codes "\t") eurl
    → Lacks (codes "\t") query
    → Lacks (codes "\t") (snap_dir snapshot task_id eid)
    → IsFramed eurl query
    → let path = snap_dir snapshot task_id eid ++ (codes "/" ++ (name_of query ++ codes ".html")) in
      (seed_line (seed_text eurl path query ++ codes "\n") ≡ page (seed_text eurl path query) path)
      × (get_engine_item task_dir path
          ≡ found eid (item_path task_dir (task_id ++ (codes "_" ++ eid)) (name_of query)))
seed_line-found task_dir snapshot task_id eid eurl query ut ue st se te tq td f = (
  seed_line-seed_text eurl
      (snap_dir snapshot task_id eid ++ (codes "/" ++ (name_of query ++ codes ".html"))) query te
      (page_path-Lacks snapshot task_id eid query td) tq f,
  get_engine_item-found task_dir snapshot task_id eid query ut ue st se,
)
