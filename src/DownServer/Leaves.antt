-- ===== src/DownServer/Leaves.antt =====
-- A whole run of the download server: the pages that it leaves, and the commands that it gives.
use mathlib.Core.Path.{subst}
use studytest.Base.{
  ℕ, suc, ◌<◌, ◌≡◌, ◌≢◌, refl, sym, ap, ◌∙◌, List, [], ◌∷◌, ◌++◌, map, append_assoc, append-nil,
  Bool, true, false, Option, some, none, Bytes, codes, same, same_iff, if◌then◌else◌, All,
  All-append, Bool-cases, inl, inr, arith, negsuc, ℤ, IsByte,
}
use studytest.Strings.{leaves, rtrim}
use studytest.DownServer.{
  Web, DownConfig, tmp_path, Page, command, open_page, download_one_page, run_pages, run,
}
use studytest.DownServer.Names.{tmp_path-injective}
use studytest.DownServer.Runs.{
  Disk, replay, shells, replay-append, shells-append, IsNew, AllRead, is_kept, kept, AllNew,
  open_page-Effect, open_page-uuids, download_one_page-page, download_one_page-none, RunEffect,
}

map-kept :
    {A B : Type 0} (f : A → B) (b : Bool) (k : A) (ks : List A)
    → (if b then f k ∷ [] else []) ++ map f ks ≡ map f (if b then k ∷ ks else ks)
map-kept f true k ks = refl
map-kept f false k ks = refl

append-kept :
    {A B : Type 0} (f : A → B) (b : Bool) (k : A) (ks : List A) (old : List B)
    → (if b then old ++ f k ∷ [] else old) ++ map f ks ≡ old ++ map f (if b then k ∷ ks else ks)
append-kept f true k ks old = append_assoc old (f k ∷ []) (map f ks)
append-kept f false k ks old = refl

module _ (conf : DownConfig) (web : Web) (uuid : ℕ → List ℕ) (dir : Bytes)
    (bytes : (m : ℕ) → All IsByte (uuid m)) (differ : (i j : ℕ) → i < j → uuid i ≢ uuid j) where
  paths-differ : (i j : ℕ) → i < j → same (tmp_path dir (uuid i)) (tmp_path dir (uuid j)) ≡ false
  paths-differ i j h = elim (Bool-cases (same (tmp_path dir (uuid i)) (tmp_path dir (uuid j)))) [
    | inl e ↦ absurd (
        differ i j h
          (tmp_path-injective dir (uuid i) (uuid j) (bytes i) (bytes j) ((same_iff _ _).0 e)))
    | inr e ↦ e
  ]

  -- The paths to come stay new behind a page, whether it is kept or not.
  AllNew-page :
      (n : ℕ) (d : Disk) (b : Bool)
      → AllNew uuid dir n d
      → AllNew uuid dir
          (suc n)
          (record d { files = if b then d.files ++ tmp_path dir (uuid n) ∷ [] else d.files })
  AllNew-page n d false new m h = new m (omega arith)
  AllNew-page n d true new m h =
      let (ho, hf) = new m (omega arith) in
      (
        ho,
        All-append (λ p. same p (tmp_path dir (uuid m)) ≡ false) d.files
            (tmp_path dir (uuid n) ∷ []) hf (paths-differ n m (omega arith), tt),
      )

  module _ (forks : (cmd : Bytes) → web.forks cmd ≡ true)
      (trims : rtrim conf.tmp_html_dir (codes "/") ≡ leaves dir) where
    run_pages-step :
        (n m : ℕ) (line : Bytes) (lines : List Bytes) (p : Page) (r : ℤ)
        → download_one_page conf web uuid n line ≡ p
        → p.ends ≡ some r
        → p.uuids ≡ m
        → run_pages conf web uuid n (line ∷ lines) ≡ (
            let rest = run_pages conf web uuid m lines in
            record { ends = rest.ends; uuids = rest.uuids; actions = p.actions ++ rest.actions })
    unfolding run_pages
    run_pages-step n m line lines p r page ends next =
        rw (ap (λ q. q.ends) page ∙ ends, run_pages) (rw page (rw next refl))

    -- a page in front of a run
    page-RunEffect :
        (n : ℕ) (url location line : Bytes) (lines : List Bytes)
        (items : List (Option (Bytes × Bytes))) (d : Disk)
        → download_one_page conf web uuid n line
          ≡ open_page conf web uuid n url location (leaves dir)
        → IsNew (tmp_path dir (uuid n)) d
        → RunEffect conf web uuid dir
            (run_pages conf web uuid (suc n) lines)
            (suc n)
            items
            (record d {
              files =
                  if is_kept conf web uuid dir url (tmp_path dir (uuid n))
                  then d.files ++ tmp_path dir (uuid n) ∷ []
                  else d.files;
            })
        → RunEffect conf web uuid dir
            (run_pages conf web uuid n (line ∷ lines))
            n
            (some (url, location) ∷ items)
            d
    page-RunEffect n url location line lines items d page new (e, s, p) =
        let (r, ends, cmds, disk) = open_page-Effect conf web uuid dir forks n url location d new in
        let next = open_page-uuids conf web uuid dir forks n url location in
        let first = open_page conf web uuid n url location (leaves dir) in
        let rest = run_pages conf web uuid (suc n) lines in
        let b = is_kept conf web uuid dir url (tmp_path dir (uuid n)) in
        let k : Bytes × Bytes = (tmp_path dir (uuid n), location) in
        subst (λ q. RunEffect conf web uuid dir q n (some (url, location) ∷ items) d)
          (sym (run_pages-step n (suc n) line lines first r page ends next))
          (
            e,
            shells-append first.actions rest.actions
                ∙ ap (λ t. t ++ shells rest.actions) cmds
                ∙ ap (λ t. (if b then command conf web uuid k.0 k.1 ∷ [] else []) ++ t) s
                ∙ map-kept (λ j. command conf web uuid j.0 j.1) b k
                    (kept conf web uuid dir (suc n) items),
            replay-append d first.actions rest.actions
                ∙ ap (λ t. replay t rest.actions) disk
                ∙ p
                ∙ ap (λ t. record d { files = t })
                    (append-kept (λ j. j.0) b k (kept conf web uuid dir (suc n) items) d.files),
          )

    run_pages-RunEffect :
        (n : ℕ) (lines : List Bytes) (items : List (Option (Bytes × Bytes))) (d : Disk)
        → AllRead lines items
        → AllNew uuid dir n d
        → RunEffect conf web uuid dir (run_pages conf web uuid n lines) n items d
    unfolding run_pages
    run_pages-RunEffect n [] [] d h new =
        (refl, refl, ap (λ t. record d { files = t }) (sym (append-nil d.files)))
    run_pages-RunEffect n [] (i ∷ items) d h new = absurd h
    run_pages-RunEffect n (line ∷ lines) [] d h new = absurd h
    run_pages-RunEffect n (line ∷ lines) (none ∷ items) d (no_tab, h) new =
        subst (λ q. RunEffect conf web uuid dir q n (none ∷ items) d)
          (sym (
            run_pages-step n n line lines _ (negsuc 0)
              (download_one_page-none conf web uuid dir forks trims n line no_tab) refl refl))
          (run_pages-RunEffect n lines items d h new)
    run_pages-RunEffect n (line ∷ lines) (some (url, location) ∷ items) d (is, h) new =
        page-RunEffect n url location line lines items d
          (download_one_page-page conf web uuid dir forks trims n line url location is)
          (new n (omega arith))
          (run_pages-RunEffect (suc n) lines items _ h
            (AllNew-page n d (is_kept conf web uuid dir url (tmp_path dir (uuid n))) new))

    -- A run with a handle returns 0, whatever its pages return. No stream that it opened stays open, and of the
    -- temporary files that it made there stay those that were kept: the pages that could be stored, that arrived
    -- with the status 200 and have more than 1024 bytes. The commands that it gives are those of the kept pages,
    -- each with its temporary file and the place that its line names, in the order of the lines. The directory
    -- for the files can be trimmed, `popen` makes a process, no uuid comes twice, and no file has the name of a
    -- uuid to come.
    pub run_lem :
        (n : ℕ) (down_list : List Bytes) (items : List (Option (Bytes × Bytes))) (d : Disk)
        → AllRead down_list items
        → AllNew uuid dir n d
        → RunEffect conf web uuid dir (run conf web uuid true n down_list) n items d
    unfolding run
    run_lem n down_list items d h new = run_pages-RunEffect n down_list items d h new
