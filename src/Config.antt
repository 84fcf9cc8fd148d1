-- ===== src/Config.antt =====
-- down_parse_client/clientConfig.cpp: the constructor of clientConfig, which reads the configuration,
-- and parseList. The lines are what `fgets` fills its buffer with; a read that fails leaves it empty.
pub mod Hosts
pub mod Lines
pub mod Item
mod Tests
use studytest.Base.{
  ℕ, zero, suc, ◌+◌, ◌-◌, ◌*◌, List, [], ◌∷◌, ◌++◌, Option, some, none, Bool, true, false, ◌&&◌,
  ◌||◌, Bytes, codes, take, drop, replicate, leb, ◌==◌, if◌then◌else◌, same, find,
}
use studytest.Strings.{Outcome, leaves, strays, hangs, trim, rtrim, explode}

-- the members that are strings and are set by a line, under the names that the file gives them
pub data Setting : Type 0 where
  mysql_host mysql_port mysql_password mysql_charset mysql_user mysql_db : Setting
  snapshot_dir task_dir proxy_api normal_page_limit_size page_num_per_proxy dest_host : Setting

-- the members that are lists of hosts
pub data HostList : Type 0 where
  download_hosts parse_hosts sogou_parse_hosts : HostList

-- the place of a member, so that members can be compared
abbrev pub place : Setting → ℕ
place mysql_host = 0
place mysql_port = 1
place mysql_password = 2
place mysql_charset = 3
place mysql_user = 4
place mysql_db = 5
place snapshot_dir = 6
place task_dir = 7
place proxy_api = 8
place normal_page_limit_size = 9
place page_num_per_proxy = 10
place dest_host = 11

abbrev pub list_place : HostList → ℕ
list_place download_hosts = 0
list_place parse_hosts = 1
list_place sogou_parse_hosts = 2

pub record ClientConfig : Type 0 where
  pub text : Setting → Bytes
  pub hosts : HostList → List Bytes

abbrev pub is_space : ℕ → Bool
is_space c = c == b' ' || (leb 9 c && leb c 13)

-- The digits of `atoi` up to the first character that is none. The number is not cut to an `int`.
abbrev pub digits : Bytes → ℕ → ℕ
digits [] n = n
digits (c ∷ s) n =
    let rest = digits s (n * 10 + (c - b'0')) in if leb b'0' c && leb c b'9' then rest else n

-- `atoi`, where a negative number counts as 0: no round of a loop is made for it
abbrev pub rounds : Bytes → ℕ
rounds [] = 0
rounds (c ∷ s) =
    let rest = rounds s in
    if is_space c
    then rest
    else if c == b'-'
    then 0
    else if c == b'+'
    then digits s 0
    else digits (c ∷ s) 0

-- what `parseList` does with the parts
unfoldable pub add_hosts : List Bytes → List Bytes → List Bytes
add_hosts tl [] = tl
add_hosts tl (host ∷ []) = tl
add_hosts tl (host ∷ (port ∷ [])) = tl ++ replicate 1 (host ++ (codes ":" ++ port))
add_hosts tl (host ∷ (port ∷ (num ∷ more))) =
    tl ++ replicate (rounds num) (host ++ (codes ":" ++ port))

-- `parseList(tl, value)`
unfoldable pub parse_list : List Bytes → Bytes → List Bytes
parse_list tl value = elim (find value (codes ":")) [
  | none ↦ tl ++ value ∷ []
  | some pos ↦ add_hosts tl (explode value (codes ":") [])
]

-- What a line is: `skipped` is a `continue`, `stray` a trimming that reads outside the string.
pub data Line : Type 0 where
  skipped : Line
  stray : Line
  entry : Bytes → Bytes → Line

-- the check behind the two trimmings of a key and a value
abbrev pub checked : Outcome → Outcome → Line
checked (leaves []) (leaves v) = skipped
checked (leaves (c ∷ k)) (leaves []) = skipped
checked (leaves (c ∷ k)) (leaves (d ∷ v)) = entry (c ∷ k) (d ∷ v)
checked (leaves k) strays = stray
checked (leaves k) hangs = stray
checked strays v = stray
checked hangs v = stray

-- what `key` and `value` are trimmed of
abbrev pub quotes : Bytes
quotes = codes "\n\r\t\" "

-- the line `c ∷ tmp` cut at its first `=`
abbrev pub cut_at : Option ℕ → ℕ → Bytes → Line
cut_at none c tmp = skipped
cut_at (some ind) c tmp =
    if c == b'#'
    then skipped
    else checked (trim (take ind (c ∷ tmp)) quotes) (trim (drop (ind + 1) (c ∷ tmp)) quotes)

-- the line without the blanks around it
abbrev pub cut_line : Bytes → Line
cut_line [] = skipped
cut_line (c ∷ tmp) = cut_at (find (c ∷ tmp) (codes "=")) c tmp

abbrev pub cut_trimmed : Outcome → Line
cut_trimmed (leaves tmp) = cut_line tmp
cut_trimmed strays = stray
cut_trimmed hangs = stray

unfoldable pub read_line : Bytes → Line
read_line line = cut_trimmed (trim line (codes "\n\r\t "))

-- the member that a key names
pub data Target : Type 0 where
  setting : Setting → Target
  host_list : HostList → Target
  unknown : Target

unfoldable pub target_of : Bytes → Target
target_of key =
    if same key (codes "mysql_host")
    then setting mysql_host
    else if same key (codes "mysql_port")
    then setting mysql_port
    else if same key (codes "mysql_password")
    then setting mysql_password
    else if same key (codes "mysql_charset")
    then setting mysql_charset
    else if same key (codes "mysql_user")
    then setting mysql_user
    else if same key (codes "mysql_db")
    then setting mysql_db
    else if same key (codes "snapshot_dir")
    then setting snapshot_dir
    else if same key (codes "task_dir")
    then setting task_dir
    else if same key (codes "proxy_api")
    then setting proxy_api
    else if same key (codes "normal_page_limit_size")
    then setting normal_page_limit_size
    else if same key (codes "page_num_per_proxy")
    then setting page_num_per_proxy
    else if same key (codes "download_hosts[]")
    then host_list download_hosts
    else if same key (codes "parse_hosts[]")
    then host_list parse_hosts
    else if same key (codes "sogou_parse_hosts[]")
    then host_list sogou_parse_hosts
    else if same key (codes "dest_host")
    then setting dest_host
    else unknown

-- the member is set, or the hosts are added to it
unfoldable pub assign : ClientConfig → Target → Bytes → ClientConfig
unfolding parse_list
assign conf (setting k) value = record conf {
  text = λ j. if place j == place k then value else conf.text j;
}
assign conf (host_list k) value = record conf {
  hosts =
      λ j. if list_place j == list_place k then parse_list (conf.hosts j) value else conf.hosts j;
}
assign conf unknown value = conf

-- one round of the loop over the file
abbrev pub apply_line : ClientConfig → Line → Option ClientConfig
apply_line conf skipped = some conf
apply_line conf stray = none
apply_line conf (entry key value) = some (assign conf (target_of key) value)

-- the loop over the file; `none` is a trimming that reads outside the string
unfoldable pub read_config : ClientConfig → List Bytes → Option ClientConfig
read_config conf [] = some conf
read_config conf (line ∷ lines) = elim (apply_line conf (read_line line)) [
  | none ↦ none
  | some conf' ↦ read_config conf' lines
]

-- `seed_file`, put together behind the loop
unfoldable pub seed_file : ClientConfig → Bytes → Outcome
seed_file conf task_id = elim (rtrim (conf.text task_dir) (codes "/")) [
  | leaves dir ↦ leaves (dir ++ (codes "/" ++ (task_id ++ codes ".seed")))
  | strays ↦ strays
  | hangs ↦ hangs
]
