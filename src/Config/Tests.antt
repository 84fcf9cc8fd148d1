-- ===== src/Config/Tests.antt =====
-- The configuration at concrete lines, and the theorems about it there.
use studytest.Base.{◌≡◌, refl, List, [], ◌∷◌, Option, some, none, Bytes, codes}
use studytest.Strings.{leaves, strays, trim, rtrim, explode}
use studytest.Config.{
  ClientConfig, Setting, mysql_host, parse_hosts, HostList, parse_list, add_hosts, read_line,
  target_of, assign, read_config, seed_file,
}
use studytest.Config.Lines.{read_config_lem, name_of, last_value, entries}

abbrev empty : ClientConfig
empty = record { text = λ k. []; hosts = λ l. [] }

abbrev file : List Bytes
file =
    codes "# mysql_host = old\n"
    ∷ codes "mysql_host = \"db1\"\n"
    ∷ codes "parse_hosts[] = 10.0.0.1:9090:2\n"
    ∷ codes "mysql_host=db2\n"
    ∷ []

abbrev text_of : Setting → Option ClientConfig → Bytes
text_of k none = []
text_of k (some conf) = conf.text k

abbrev hosts_of : HostList → Option ClientConfig → List Bytes
hosts_of l none = []
hosts_of l (some conf) = conf.hosts l

file_host : text_of mysql_host (read_config empty file) ≡ codes "db2"
unfolding read_config read_line target_of assign trim
file_host = refl

file_parse_hosts :
    hosts_of parse_hosts (read_config empty file)
    ≡ codes "10.0.0.1:9090" ∷ codes "10.0.0.1:9090" ∷ []
unfolding read_config read_line target_of assign trim explode parse_list add_hosts
file_parse_hosts = refl

abbrev with_dir : Bytes → ClientConfig
with_dir dir = record { text = λ k. dir; hosts = λ l. [] }

seed_file_slash :
    seed_file (with_dir (codes "/data/task/")) (codes "12") ≡ leaves (codes "/data/task/12.seed")
unfolding seed_file rtrim
seed_file_slash = refl

-- The root directory is cut to nothing, and further.
seed_file_root : seed_file (with_dir (codes "/")) (codes "12") ≡ strays
unfolding seed_file rtrim
seed_file_root = refl

read_config_lem_example :
    (conf' : ClientConfig) × (read_config empty file ≡ some conf')
    × ((k : Setting) → conf'.text k ≡ last_value (name_of k) (empty.text k) (entries file))
read_config_lem_example = read_config_lem empty file
