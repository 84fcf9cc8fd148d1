-- ===== src/Config/Lines.antt =====
-- What the lines of the configuration set.
use studytest.Base.{
  ℕ, ◌≡◌, ◌≢◌, refl, sym, ap, ◌∙◌, List, [], ◌∷◌, Option, some, none, true, arith, Bytes, codes,
  ◌==◌, ==_iff, same, same_iff, take, drop, ◌+◌, find, get_or, if◌then◌else◌, Bool-cases, inl, inr,
}
use studytest.Strings.{leaves}
use studytest.Strings.Trim.{trim-leaves}
use studytest.Config.{
  Setting, mysql_host, mysql_port, mysql_password, mysql_charset, mysql_user, mysql_db,
  snapshot_dir, task_dir, proxy_api, normal_page_limit_size, page_num_per_proxy, dest_host, place,
  ClientConfig, Target, setting, host_list, unknown, target_of, assign, Line, skipped, stray, entry,
  read_line, read_config, apply_line, cut_line, cut_at, cut_trimmed, checked, quotes,
}

-- how the file names a member
abbrev pub name_of : Setting → Bytes
name_of mysql_host = codes "mysql_host"
name_of mysql_port = codes "mysql_port"
name_of mysql_password = codes "mysql_password"
name_of mysql_charset = codes "mysql_charset"
name_of mysql_user = codes "mysql_user"
name_of mysql_db = codes "mysql_db"
name_of snapshot_dir = codes "snapshot_dir"
name_of task_dir = codes "task_dir"
name_of proxy_api = codes "proxy_api"
name_of normal_page_limit_size = codes "normal_page_limit_size"
name_of page_num_per_proxy = codes "page_num_per_proxy"
name_of dest_host = codes "dest_host"

target_of-name : (k : Setting) → target_of (name_of k) ≡ setting k
unfolding target_of
target_of-name mysql_host = refl
target_of-name mysql_port = refl
target_of-name mysql_password = refl
target_of-name mysql_charset = refl
target_of-name mysql_user = refl
target_of-name mysql_db = refl
target_of-name snapshot_dir = refl
target_of-name task_dir = refl
target_of-name proxy_api = refl
target_of-name normal_page_limit_size = refl
target_of-name page_num_per_proxy = refl
target_of-name dest_host = refl

name_of-target :
    (key : Bytes) (k : Setting) → target_of key ≡ setting k → same key (name_of k) ≡ true
unfolding target_of
name_of-target key mysql_host e = ground arith
name_of-target key mysql_port e = ground arith
name_of-target key mysql_password e = ground arith
name_of-target key mysql_charset e = ground arith
name_of-target key mysql_user e = ground arith
name_of-target key mysql_db e = ground arith
name_of-target key snapshot_dir e = ground arith
name_of-target key task_dir e = ground arith
name_of-target key proxy_api e = ground arith
name_of-target key normal_page_limit_size e = ground arith
name_of-target key page_num_per_proxy e = ground arith
name_of-target key dest_host e = ground arith

-- the member at a place
abbrev at_place : ℕ → Setting
at_place n =
    get_or
      (mysql_host ∷ mysql_port ∷ mysql_password ∷ mysql_charset ∷ mysql_user ∷ mysql_db
        ∷ snapshot_dir ∷ task_dir ∷ proxy_api ∷ normal_page_limit_size ∷ page_num_per_proxy ∷ [])
      n dest_host

at_place-place : (k : Setting) → at_place (place k) ≡ k
at_place-place mysql_host = refl
at_place-place mysql_port = refl
at_place-place mysql_password = refl
at_place-place mysql_charset = refl
at_place-place mysql_user = refl
at_place-place mysql_db = refl
at_place-place snapshot_dir = refl
at_place-place task_dir = refl
at_place-place proxy_api = refl
at_place-place normal_page_limit_size = refl
at_place-place page_num_per_proxy = refl
at_place-place dest_host = refl

assign-same :
    (conf : ClientConfig) (t : Target) (value : Bytes) (k : Setting)
    → t ≡ setting k
    → (assign conf t value).text k ≡ value
unfolding assign
assign-same conf t value k e =
    let itself : (place k == place k) ≡ true = (==_iff (place k) (place k)).1 refl in
    rw e (rw itself)

assign-other :
    (conf : ClientConfig) (t : Target) (value : Bytes) (k : Setting)
    → t ≢ setting k
    → (assign conf t value).text k ≡ conf.text k
unfolding assign
assign-other conf (setting j) value k ne = elim (Bool-cases (place k == place j)) [
  | inl e ↦ absurd (
      ne (
        ap setting (
          sym (at_place-place j)
          ∙ ap at_place (sym ((==_iff (place k) (place j)).0 e))
          ∙ at_place-place k)))
  | inr e ↦ rw e
]
assign-other conf (host_list l) value k ne = refl
assign-other conf unknown value k ne = refl

-- A value goes to the member that the key names, and to no other.
assign-text :
    (conf : ClientConfig) (key value : Bytes) (k : Setting)
    → (assign conf (target_of key) value).text k
      ≡ (if same key (name_of k) then value else conf.text k)
assign-text conf key value k = elim (Bool-cases (same key (name_of k))) [
  | inl named ↦ rw named (
      assign-same conf (target_of key) value k
        (ap target_of ((same_iff key (name_of k)).0 named) ∙ target_of-name k))
  | inr other ↦
      rw other
        (assign-other conf (target_of key) value k (λ e. let t = name_of-target key k e in cc))
]

checked_lem : (k v : Bytes) → checked (leaves k) (leaves v) ≢ stray
checked_lem [] v e = cc
checked_lem (c ∷ k) [] e = cc
checked_lem (c ∷ k) (d ∷ v) e = cc

cut_at_lem : (o : Option ℕ) (c : ℕ) (tmp : Bytes) → cut_at o c tmp ≢ stray
cut_at_lem none c tmp = λ e. cc
cut_at_lem (some ind) c tmp = elim (Bool-cases (c == b'#')) [
  | inl comment ↦ rw comment (λ e. cc)
  | inr text ↦
      let (k, ek) = trim-leaves (take ind (c ∷ tmp)) quotes refl in
      let (v, ev) = trim-leaves (drop (ind + 1) (c ∷ tmp)) quotes refl in
      rw text (rw (ek, ev) (checked_lem k v))
]

cut_line_lem : (s : Bytes) → cut_line s ≢ stray
cut_line_lem [] = λ e. cc
cut_line_lem (c ∷ tmp) = cut_at_lem (find (c ∷ tmp) (codes "=")) c tmp

read_line_lem : (line : Bytes) → read_line line ≢ stray
unfolding read_line
read_line_lem line e =
    let (r, left) = trim-leaves line (codes "\n\r\t ") refl in
    cut_line_lem r (ap cut_trimmed (sym left) ∙ e)

-- the entries of the file, in order
abbrev with_entry : Line → List (Bytes × Bytes) → List (Bytes × Bytes)
with_entry skipped es = es
with_entry stray es = es
with_entry (entry key value) es = (key, value) ∷ es

abbrev pub entries : List Bytes → List (Bytes × Bytes)
entries [] = []
entries (line ∷ lines) = with_entry (read_line line) (entries lines)

-- the value of the last entry under a name, or an old one
abbrev pub last_value : Bytes → Bytes → List (Bytes × Bytes) → Bytes
last_value name old [] = old
last_value name old ((key, value) ∷ es) = last_value name (if same key name then value else old) es

-- what `read_config_lem` says of one configuration and the lines ahead
abbrev Reads : ClientConfig → Option ClientConfig → List (Bytes × Bytes) → Type 0
Reads conf read es =
    (conf' : ClientConfig) × (read ≡ some conf')
    × ((k : Setting) → conf'.text k ≡ last_value (name_of k) (conf.text k) es)

apply_line-Reads :
    (conf : ClientConfig) (l : Line) (lines : List Bytes)
    → l ≢ stray
    → ((conf' : ClientConfig) → Reads conf' (read_config conf' lines) (entries lines))
    → Reads conf
        (elim (apply_line conf l) [ none ↦ none | some conf' ↦ read_config conf' lines ])
        (with_entry l (entries lines))
apply_line-Reads conf skipped lines ne more = more conf
apply_line-Reads conf stray lines ne more = absurd (ne refl)
apply_line-Reads conf (entry key value) lines ne more =
    let (conf', e, after) = more (assign conf (target_of key) value) in
    (
      conf',
      e,
      λ k.
          after k
          ∙ ap (λ v. last_value (name_of k) v (entries lines)) (assign-text conf key value k),
    )

-- Reading the configuration never reads outside a string, whatever the lines are; afterwards each
-- member that is a string has the value of the last entry under its name, and its old value if there is
-- none.
pub read_config_lem :
    (conf : ClientConfig) (lines : List Bytes)
    → (conf' : ClientConfig) × (read_config conf lines ≡ some conf')
      × ((k : Setting) → conf'.text k ≡ last_value (name_of k) (conf.text k) (entries lines))
unfolding read_config
read_config_lem conf [] = (conf, refl, λ k. refl)
read_config_lem conf (line ∷ lines) =
    apply_line-Reads conf (read_line line) lines (read_line_lem line)
      (λ conf'. read_config_lem conf' lines)
