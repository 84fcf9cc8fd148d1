-- ===== src/DownServer/Runs.antt =====
-- What a run of the download server leaves behind.
use mathlib.Core.List.{cons-ne-nil}
use studytest.Base.{
  ℕ, suc, ◌≤◌, ◌≡◌, ◌≢◌, refl, ap, ◌∙◌, List, [], ◌∷◌, ◌++◌, map, Bool, true, false, not, ◌&&◌,
  Option, some, none, Bytes, codes, same, same_iff, find, length, negsuc, leb, ◌==◌, if◌then◌else◌,
  All, Bool-cases, inl, inr, pos, ℤ,
}
use studytest.Strings.{leaves, rtrim, explode}
use studytest.Strings.Split.{join, Lacks, explode-join, find-Lacks}
use studytest.DownServer.{
  Action, opened, closed, unlinked, loaded, shell, Web, DownConfig, tmp_path, Page, command,
  send_file, load_page, open_page, page_of, download_one_page,
}

-- the streams that are open and the temporary files
pub record Disk : Type 0 where
  pub open_files : List Bytes
  pub files : List Bytes

abbrev pub removed : Bytes → List Bytes → List Bytes
removed path [] = []
removed path (p ∷ ps) = let rest = removed path ps in if same p path then rest else p ∷ rest

abbrev pub replay_one : Disk → Action → Disk
replay_one d (opened p) = record { open_files = p ∷ d.open_files; files = d.files ++ p ∷ [] }
replay_one d (closed p) = record d { open_files = removed p d.open_files }
replay_one d (unlinked p) = record d { files = removed p d.files }
replay_one d (loaded url p) = d
replay_one d (shell cmd) = d

-- the disk behind some actions
abbrev pub replay : Disk → List Action → Disk
replay d [] = d
replay d (a ∷ more) = replay (replay_one d a) more

-- the commands among them
abbrev pub shells : List Action → List Bytes
shells [] = []
shells (opened p ∷ more) = shells more
shells (closed p ∷ more) = shells more
shells (unlinked p ∷ more) = shells more
shells (loaded url p ∷ more) = shells more
shells (shell cmd ∷ more) = cmd ∷ shells more

pub replay-append : (d : Disk) (xs ys : List Action) → replay d (xs ++ ys) ≡ replay (replay d xs) ys
replay-append d [] ys = refl
replay-append d (x ∷ xs) ys = replay-append (replay_one d x) xs ys

pub shells-append : (xs ys : List Action) → shells (xs ++ ys) ≡ shells xs ++ shells ys
shells-append [] ys = refl
shells-append (opened p ∷ xs) ys = shells-append xs ys
shells-append (closed p ∷ xs) ys = shells-append xs ys
shells-append (unlinked p ∷ xs) ys = shells-append xs ys
shells-append (loaded url p ∷ xs) ys = shells-append xs ys
shells-append (shell cmd ∷ xs) ys = ap (◌∷◌ cmd) (shells-append xs ys)

-- none of the paths is this one
abbrev pub Lacking : Bytes → List Bytes → Type 0
Lacking path = All (λ p. same p path ≡ false)

removed-Lacking : (path : Bytes) (ps : List Bytes) → Lacking path ps → removed path ps ≡ ps
removed-Lacking path [] h = refl
removed-Lacking path (p ∷ ps) (hp, h) = rw hp (ap (◌∷◌ p) (removed-Lacking path ps h))

removed-first : (path : Bytes) (ps : List Bytes) → Lacking path ps → removed path (path ∷ ps) ≡ ps
removed-first path ps h = rw ((same_iff path path).1 refl) (removed-Lacking path ps h)

removed-last :
    (path : Bytes) (ps : List Bytes) → Lacking path ps → removed path (ps ++ path ∷ []) ≡ ps
removed-last path [] h = removed-first path [] tt
removed-last path (p ∷ ps) (hp, h) = rw hp (ap (◌∷◌ p) (removed-last path ps h))

-- the path is new to the disk
abbrev pub IsNew : Bytes → Disk → Type 0
IsNew path d = Lacking path d.open_files × Lacking path d.files

-- What a line is read as: `none` without a tab, else the address and the place of the page.
abbrev pub Reads : Bytes → Option (Bytes × Bytes) → Type 0
Reads line none = Lacks (codes "\t") line
Reads line (some (url, location)) =
    (more : List Bytes) × (line ≡ join (url ∷ (location ∷ more)) (codes "\t"))
    × All (Lacks (codes "\t")) (url ∷ (location ∷ more))

abbrev pub AllRead : List Bytes → List (Option (Bytes × Bytes)) → Type 0
AllRead [] [] = Unit
AllRead [] (i ∷ items) = ⊥
AllRead (line ∷ lines) [] = ⊥
AllRead (line ∷ lines) (i ∷ items) = Reads line i × AllRead lines items

module _ (uuid : ℕ → List ℕ) (dir : Bytes) where
  -- the paths of the uuids to come are new
  abbrev pub AllNew : ℕ → Disk → Type 0
  AllNew n d = (m : ℕ) → n ≤ m → IsNew (tmp_path dir (uuid m)) d

module _ (conf : DownConfig) (web : Web) (uuid : ℕ → List ℕ) (dir : Bytes) where
  -- a page that can be stored, that arrives with the status 200 and has more than 1024 bytes
  abbrev pub is_kept : Bytes → Bytes → Bool
  is_kept url path =
      web.opens path
      && (web.performs url path
          && ((web.status url path == 200) && not (leb (web.size url path) 1024)))

  -- the pages that are kept: the path of the temporary file, and the place
  abbrev pub kept : ℕ → List (Option (Bytes × Bytes)) → List (Bytes × Bytes)
  kept n [] = []
  kept n (none ∷ items) = kept n items
  kept n (some (url, location) ∷ items) =
      let rest = kept (suc n) items in
      if is_kept url (tmp_path dir (uuid n)) then (tmp_path dir (uuid n), location) ∷ rest else rest

  -- what a page does to the disk, and the commands it gives
  abbrev pub Effect : Page → Bytes → Bytes → Bytes → Disk → Type 0
  Effect p url location path d =
      (r : ℤ) × (p.ends ≡ some r)
      × (shells p.actions
          ≡ (if is_kept url path then command conf web uuid path location ∷ [] else []))
      × (replay d p.actions
          ≡ record d { files = if is_kept url path then d.files ++ path ∷ [] else d.files })

  -- What a run does to the disk, and the commands it gives.
  abbrev pub RunEffect : Page → ℕ → List (Option (Bytes × Bytes)) → Disk → Type 0
  RunEffect p n items d =
      (p.ends ≡ some (pos 0))
      × (shells p.actions ≡ map (λ k. command conf web uuid k.0 k.1) (kept n items))
      × (replay d p.actions ≡ record d { files = d.files ++ map (λ k. k.0) (kept n items) })

  module _ (forks : (cmd : Bytes) → web.forks cmd ≡ true) where
    pub open_page-Effect :
        (n : ℕ) (url location : Bytes) (d : Disk)
        → IsNew (tmp_path dir (uuid n)) d
        → Effect
            (open_page conf web uuid n url location (leaves dir))
            url
            location
            (tmp_path dir (uuid n))
            d
    unfolding open_page load_page send_file
    open_page-Effect n url location d (ho, hf) =
        let path = tmp_path dir (uuid n) in
        let closing = removed-first path d.open_files ho in
        let deleting = removed-last path d.files hf in
        elim (Bool-cases (web.opens path)) [
          | inr e ↦ rw e (_, refl, refl, refl)
          | inl e ↦ elim (Bool-cases (web.performs url path)) [
            | inr f ↦ rw (e, f) (_, refl, refl, rw (closing, deleting) refl)
            | inl f ↦ elim (Bool-cases (web.status url path == 200)) [
              | inr g ↦ rw (e, f, g) (_, refl, refl, rw (closing, deleting) refl)
              | inl g ↦ elim (Bool-cases (leb (web.size url path) 1024)) [
                | inl h ↦ rw (e, f, g, h) (_, refl, refl, rw (closing, deleting) refl)
                | inr h ↦
                    rw (e, f, g, h, forks (command conf web uuid path location))
                      (_, refl, refl, rw closing refl)
              ]
            ]
          ]
        ]

    pub open_page-uuids :
        (n : ℕ) (url location : Bytes)
        → (open_page conf web uuid n url location (leaves dir)).uuids ≡ suc n
    unfolding open_page
    open_page-uuids n url location = elim (Bool-cases (web.opens (tmp_path dir (uuid n)))) [
      | inl e ↦ rw e refl
      | inr e ↦ rw e refl
    ]

    module _ (trims : rtrim conf.tmp_html_dir (codes "/") ≡ leaves dir) where
      pub download_one_page-page :
          (n : ℕ) (line url location : Bytes)
          → Reads line (some (url, location))
          → download_one_page conf web uuid n line
            ≡ open_page conf web uuid n url location (leaves dir)
      unfolding download_one_page page_of
      download_one_page-page n line url location (more, e, lacks) =
          let rest = join (location ∷ more) (codes "\t") in
          let tab : find line (codes "\t") ≡ some (length url) =
            ap (λ t. find t (codes "\t")) e ∙ find-Lacks url b'\t' rest lacks.0 in
          let parts : explode line (codes "\t") [] ≡ url ∷ (location ∷ more) =
            ap (λ t. explode t (codes "\t") []) e
            ∙ explode-join (url ∷ (location ∷ more)) b'\t' lacks (not_nil url rest) in
          rw (tab, download_one_page) (rw (parts) (rw (trims, page_of) refl))
        where
          not_nil : (a b : Bytes) → a ++ (b'\t' ∷ b) ≢ []
          not_nil [] b e = cons-ne-nil _ _ e
          not_nil (x ∷ a) b e = cons-ne-nil _ _ e

      pub download_one_page-none :
          (n : ℕ) (line : Bytes)
          → Lacks (codes "\t") line
          → download_one_page conf web uuid n line
            ≡ record { ends = some (negsuc 0); uuids = n; actions = [] }
      unfolding download_one_page
      download_one_page-none n line e = rw (e, download_one_page) refl
