-- ===== src/DownServer/Settings.antt =====
-- download_server/down_action/downConfig.cpp: the constructor of downConfig, from the lines of its file to the
-- members, and run_down of downServer.cpp. The lines are what `fgets` fills its buffer with. `timeout` is not set before a line names it: it is
-- then the sign and the digits that atoi reads.
pub mod Last
pub mod Handled
use studytest.Base.{
  ℕ, ◌+◌, List, [], ◌∷◌, ◌++◌, Option, some, none, Bool, Bytes, codes, take, drop, ◌==◌,
  if◌then◌else◌, same, find,
}
use studytest.Strings.{Outcome, leaves, strays, hangs, trim}
use studytest.Config.{Line, skipped, stray, entry, quotes}
use studytest.Engines.{atoi}
use studytest.DownServer.{Web, DownConfig, Page, run}

pub record Settings : Type 0 where
  pub header_list : List Bytes
  pub sendfile_shell : Bytes
  pub tmp_html_dir : Bytes
  pub timeout : Option (Bool × ℕ)

-- a key and a value, both trimmed; either may be empty
abbrev pub trimmed_entry : Outcome → Outcome → Line
trimmed_entry (leaves key) (leaves value) = entry key value
trimmed_entry (leaves key) strays = stray
trimmed_entry (leaves key) hangs = stray
trimmed_entry strays value = stray
trimmed_entry hangs value = stray

-- the line `c ∷ tmp` cut at its first `=`
abbrev pub cut_line : Option ℕ → ℕ → Bytes → Line
cut_line none c tmp = skipped
cut_line (some ind) c tmp =
    if c == b'#'
    then skipped
    else trimmed_entry (trim (take ind (c ∷ tmp)) quotes) (trim (drop (ind + 1) (c ∷ tmp)) quotes)

abbrev pub cut_trimmed : Outcome → Line
cut_trimmed (leaves []) = skipped
cut_trimmed (leaves (c ∷ tmp)) = cut_line (find (c ∷ tmp) (codes "=")) c tmp
cut_trimmed strays = stray
cut_trimmed hangs = stray

unfoldable pub setting_line : Bytes → Line
setting_line line = cut_trimmed (trim line (codes "\n\r\t "))

-- the member that a key names is set, or the header is added
unfoldable pub set_member : Settings → Bytes → Bytes → Settings
set_member s key value =
    if same key (codes "headers[]")
    then record s { header_list = s.header_list ++ value ∷ [] }
    else if same key (codes "sendfile_shell")
    then record s { sendfile_shell = value }
    else if same key (codes "tmp_html_dir")
    then record s { tmp_html_dir = value }
    else if same key (codes "timeout")
    then record s { timeout = some (atoi value) }
    else s

-- one round of the loop over the file
abbrev pub set_line : Settings → Line → Option Settings
set_line s skipped = some s
set_line s stray = none
set_line s (entry key value) = some (set_member s key value)

-- the loop over the file; `none` is a trimming that reads outside the string
unfoldable pub read_settings : Settings → List Bytes → Option Settings
read_settings s [] = some s
read_settings s (line ∷ lines) = elim (set_line s (setting_line line)) [
  | none ↦ none
  | some s' ↦ read_settings s' lines
]

-- the strings before the first line
abbrev pub unset : Settings
unset = record { header_list = []; sendfile_shell = []; tmp_html_dir = []; timeout = none }

abbrev pub conf_of : Settings → DownConfig
conf_of s = record { tmp_html_dir = s.tmp_html_dir; sendfile_shell = s.sendfile_shell }

-- run_down of downServer.cpp: each request reads the configuration, here its lines, and has a handle of its
-- own. `n` uuids were made before.
unfoldable pub run_down : Web → (ℕ → List ℕ) → Bool → List Bytes → ℕ → List Bytes → Option Page
unfolding read_settings run
run_down web uuid handle lines n arg = elim (read_settings unset lines) [
  | none ↦ none
  | some s ↦ some (run (conf_of s) web uuid handle n arg)
]
