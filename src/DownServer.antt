-- ===== src/DownServer.antt =====
-- download_server/down_action/download.cpp: run and download_one_page, and gen_uuid of
-- download_server/utils/Utils.cpp. What a call does to the system is an action. What libcurl and the system
-- answer are parameters, looked up by the address and the path of the temporary file, which differs from one
-- page to the next. `stat` is asked for a file that was just closed, and is taken to answer. The trimming and
-- the splitting are those of down_parse_client/utils/Utils.cpp, which this server has a copy of.
pub mod Names
pub mod Runs
pub mod Leaves
pub mod Queued
pub mod Settings
mod Tests
use studytest.Base.{
  ℕ, suc, ◌/◌, ◌%◌, List, [], ◌∷◌, ◌++◌, Option, some, none, Bool, Bytes, codes, leb, ◌==◌,
  if◌then◌else◌, find, ℤ, pos, negsuc,
}
use studytest.Strings.{Outcome, leaves, strays, hangs, rtrim, explode}
use studytest.UrlCodec.{to_hex}

pub data Action : Type 0 where
  opened closed unlinked : Bytes → Action
  loaded : Bytes → Bytes → Action
  shell : Bytes → Action

-- `fopen`, `curl_easy_perform`, the status of the answer, the size that `stat` gives, and `popen`
pub record Web : Type 0 where
  pub opens : Bytes → Bool
  pub performs : Bytes → Bytes → Bool
  pub status : Bytes → Bytes → ℕ
  pub size : Bytes → Bytes → ℕ
  pub forks : Bytes → Bool

-- the members of `downConfig` that are read here
pub record DownConfig : Type 0 where
  pub tmp_html_dir : Bytes
  pub sendfile_shell : Bytes

-- `sprintf(tmp, "%02X", uu[i])` for each byte; the digits are those of `ToHex`
unfoldable pub uuid_text : List ℕ → Bytes
unfolding to_hex
uuid_text [] = []
uuid_text (c ∷ uu) = to_hex (c / 16) ∷ (to_hex (c % 16) ∷ uuid_text uu)

-- the path of the temporary file in a trimmed directory
unfoldable pub tmp_path : Bytes → List ℕ → Bytes
unfolding uuid_text
tmp_path dir uu = dir ++ (codes "/" ++ (uuid_text uu ++ codes ".html"))

-- A page: what it returns, where `none` is a behaviour that is not determined; the uuids that were
-- made; and the actions.
pub record Page : Type 0 where
  pub ends : Option ℤ
  pub uuids : ℕ
  pub actions : List Action

module _ (conf : DownConfig) (web : Web) (uuid : ℕ → List ℕ) where
  abbrev pub command : Bytes → Bytes → Bytes
  command tmp_file location =
      codes "/bin/bash "
      ++ (conf.sendfile_shell
          ++ (codes " " ++ (tmp_file ++ (codes "  " ++ (location ++ codes " >/dev/null 2>&1")))))

  -- behind `fclose`: a page of 1024 bytes or less is deleted, another goes to the script; `fclose` of the
  -- stream that `popen` could not make is not determined
  unfoldable pub send_file : Bytes → Bytes → Bytes → Option ℤ × List Action
  send_file url location tmp_file =
      if leb (web.size url tmp_file) 1024 then (some (pos 0), unlinked tmp_file ∷ []) else (
        if web.forks (command tmp_file location) then some (pos 0) else none,
        shell (command tmp_file location) ∷ [],
      )

  -- behind `fopen`
  unfoldable pub load_page : Bytes → Bytes → Bytes → Option ℤ × List Action
  unfolding send_file
  load_page url location tmp_file =
      if web.performs url tmp_file
      then (if web.status url tmp_file == 200
          then (let (r, more) = send_file url location tmp_file in (r, closed tmp_file ∷ more))
          else (some (negsuc 3), closed tmp_file ∷ (unlinked tmp_file ∷ [])))
      else (some (negsuc 3), closed tmp_file ∷ (unlinked tmp_file ∷ []))

  -- behind `gen_uuid`
  unfoldable pub open_page : ℕ → Bytes → Bytes → Outcome → Page
  unfolding load_page tmp_path
  open_page n url location (leaves dir) =
      let tmp_file = tmp_path dir (uuid n) in
      if web.opens tmp_file
      then (let (r, more) = load_page url location tmp_file in
          record {
            ends = r;
            uuids = suc n;
            actions = opened tmp_file ∷ (loaded url tmp_file ∷ more);
          })
      else record { ends = some (negsuc 2); uuids = suc n; actions = [] }
  open_page n url location strays = record { ends = none; uuids = n; actions = [] }
  open_page n url location hangs = record { ends = none; uuids = n; actions = [] }

  -- the parts of a line with a tab
  unfoldable pub page_of : ℕ → List Bytes → Page
  unfolding open_page
  page_of n [] = record { ends = some (negsuc 1); uuids = n; actions = [] }
  page_of n (url ∷ []) = record { ends = some (negsuc 1); uuids = n; actions = [] }
  page_of n (url ∷ (location ∷ more)) =
      open_page n url location (rtrim conf.tmp_html_dir (codes "/"))

  -- `n` uuids were made before
  unfoldable pub download_one_page : ℕ → Bytes → Page
  unfolding page_of explode
  download_one_page n line = elim (find line (codes "\t")) [
    | none ↦ record { ends = some (negsuc 0); uuids = n; actions = [] }
    | some p ↦ page_of n (explode line (codes "\t") [])
  ]

  -- the loop over the list: what a page returns is not looked at
  unfoldable pub run_pages : ℕ → List Bytes → Page
  unfolding download_one_page
  run_pages n [] = record { ends = some (pos 0); uuids = n; actions = [] }
  run_pages n (line ∷ down_list) =
      let p = download_one_page n line in
      let rest = run_pages p.uuids down_list in
      elim p.ends [
        | none ↦ p
        | some r ↦ record {
          ends = rest.ends;
          uuids = rest.uuids;
          actions = p.actions ++ rest.actions;
        }
      ]

  -- `run`; the first argument says whether `curl_easy_init` gave a handle
  unfoldable pub run : Bool → ℕ → List Bytes → Page
  unfolding run_pages
  run handle n down_list =
      if handle
      then run_pages n down_list
      else record { ends = some (negsuc 1); uuids = n; actions = [] }
