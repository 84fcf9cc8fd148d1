-- ===== src/DownServer/Settings/Handled.antt =====
-- A request to the download server, from its configuration to the pages.
use studytest.Base.{
  ℕ, ◌<◌, ◌≡◌, ◌≢◌, refl, ap, ◌∙◌, List, [], Option, some, true, Bytes, codes, All, IsByte,
}
use studytest.Strings.{leaves, rtrim}
use studytest.DownServer.{Web, DownConfig, Page, run}
use studytest.DownServer.Runs.{Disk, AllRead, AllNew, RunEffect}
use studytest.DownServer.Leaves.{run_lem}
use studytest.DownServer.Settings.{unset, conf_of, run_down}
use studytest.DownServer.Settings.Last.{values_of, last_or, read_settings_lem}

module _ (web : Web) (uuid : ℕ → List ℕ) (dir : Bytes) (bytes : (m : ℕ) → All IsByte (uuid m))
    (differ : (i j : ℕ) → i < j → uuid i ≢ uuid j)
    (forks : (cmd : Bytes) → web.forks cmd ≡ true) where
  -- A request with a handle, whatever the lines of the configuration are: the script and the directory are those
  -- of the last lines that name them, and the run returns 0, whatever its pages return. No stream that it opened
  -- stays open, and of the temporary files that it made there stay those that were kept: the pages that could be
  -- stored, that arrived with the status 200 and have more than 1024 bytes. The commands that it gives are those
  -- of the kept pages, each with its temporary file and the place that its line names, in the order of the
  -- lines. The directory can be trimmed, `popen` makes a process, no uuid comes twice, and no file has the name
  -- of a uuid to come.
  pub run_down-RunEffect :
      (ini : List Bytes) (n : ℕ) (arg : List Bytes) (items : List (Option (Bytes × Bytes)))
      (d : Disk)
      → rtrim (last_or [] (values_of (codes "tmp_html_dir") ini)) (codes "/") ≡ leaves dir
      → AllRead arg items
      → AllNew uuid dir n d
      → (conf : DownConfig) × (p : Page) × (run_down web uuid true ini n arg ≡ some p)
        × (conf.sendfile_shell ≡ last_or [] (values_of (codes "sendfile_shell") ini))
        × (conf.tmp_html_dir ≡ last_or [] (values_of (codes "tmp_html_dir") ini))
        × RunEffect conf web uuid dir p n items d
  unfolding run_down
  run_down-RunEffect ini n arg items d trims reads new =
      let (s, e, (headers, shell, tmp, timeout)) = read_settings_lem unset ini in
      (
        conf_of s,
        run (conf_of s) web uuid true n arg,
        rw (e, run_down) refl,
        shell,
        tmp,
        run_lem (conf_of s) web uuid dir bytes differ forks
            (ap (λ t. rtrim t (codes "/")) tmp ∙ trims) n arg items d reads new,
      )
