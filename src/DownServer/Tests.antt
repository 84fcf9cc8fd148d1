-- ===== src/DownServer/Tests.antt =====
-- The download server on a concrete list, and the theorems about it there.
use studytest.Base.{
  false, ℕ, zero, suc, ◌<◌, ◌≡◌, ◌≢◌, refl, ap, List, [], ◌∷◌, Option, some, none, true, Bytes,
  codes, length, replicate, All, arith, IsByte, has, not, ◌==◌, if◌then◌else◌,
}
use studytest.Strings.{leaves, rtrim, trim, explode}
use studytest.UrlCodec.{to_hex}
use studytest.DownFeed.{send_queue}
use studytest.DownServer.{
  opened, closed, unlinked, loaded, shell, Web, DownConfig, Page, uuid_text, tmp_path, send_file,
  load_page, open_page, page_of, download_one_page, run_pages, run,
}
use studytest.DownServer.Runs.{Disk, RunEffect}
use studytest.DownServer.Settings.Handled.{run_down-RunEffect}
use studytest.DownServer.Queued.{Runs, send_queue-run}
use studytest.Engines.{atoi}
use studytest.DownServer.Settings.{
  Settings, setting_line, set_member, read_settings, run_down, unset,
}
use studytest.DownServer.Settings.Last.{values_of, last_or, Sets, read_settings_lem}

abbrev conf : DownConfig
conf = record { tmp_html_dir = codes "/tmp/"; sendfile_shell = codes "/s.sh" }

-- an address of four characters gives a page that is too small, one that ends in `x` none
abbrev web : Web
web = record {
  opens = λ path. true;
  performs = λ url path. not (has url b'x');
  status = λ url path. 200;
  size = λ url path. if length url == 4 then 1024 else 1025;
  forks = λ cmd. true;
}

-- the uuids 01, 0001 and so on
abbrev uuid : ℕ → List ℕ
uuid n = replicate (suc n) 1

uuid-bytes : (m : ℕ) → All IsByte (uuid m)
uuid-bytes zero = (omega arith, tt)
uuid-bytes (suc m) = (omega arith, uuid-bytes m)

length-replicate : (n : ℕ) → length (replicate {A = ℕ} n 1) ≡ n
length-replicate zero = refl
length-replicate (suc n) = ap suc (length-replicate n)

uuid-differ : (i j : ℕ) → i < j → uuid i ≢ uuid j
uuid-differ i j h e =
    let lengths = ap length e in
    absurd (omega (arith, length-replicate (suc i), length-replicate (suc j)))

abbrev none_yet : Disk
none_yet = record { open_files = []; files = [] }

abbrev list : List Bytes
list =
    codes "no tab"
    ∷ (codes "http://a\t/p/a.html\tq" ∷ (codes "http\t/p/b" ∷ (codes "http://x\t/p/x" ∷ [])))

run-list : (run conf web uuid true 0 list).actions ≡ (
    opened (codes "/tmp/01.html")
    ∷ (loaded (codes "http://a") (codes "/tmp/01.html")
        ∷ (closed (codes "/tmp/01.html")
            ∷ (shell (codes "/bin/bash /s.sh /tmp/01.html  /p/a.html >/dev/null 2>&1")
                ∷ (opened (codes "/tmp/0101.html")
                    ∷ (loaded (codes "http") (codes "/tmp/0101.html")
                        ∷ (closed (codes "/tmp/0101.html")
                            ∷ (unlinked (codes "/tmp/0101.html")
                                ∷ (opened (codes "/tmp/010101.html")
                                    ∷ (loaded (codes "http://x") (codes "/tmp/010101.html")
                                        ∷ (closed (codes "/tmp/010101.html")
                                            ∷ (unlinked (codes "/tmp/010101.html") ∷ []))))))))))))
unfolding run run_pages download_one_page page_of open_page load_page send_file tmp_path uuid_text
    to_hex rtrim explode
run-list = refl

abbrev items : List (Option (Bytes × Bytes))
items =
    none
    ∷ (some (codes "http://a", codes "/p/a.html")
        ∷ (some (codes "http", codes "/p/b") ∷ (some (codes "http://x", codes "/p/x") ∷ [])))

abbrev seeds : List Bytes
seeds = codes "http://a\t/p/a.html\tq\n" ∷ (codes "no\n" ∷ (codes "http://b\t/p/b.html\tr\n" ∷ []))

tmp_trims : rtrim (codes "/tmp/") (codes "/") ≡ leaves (codes "/tmp")
unfolding rtrim
tmp_trims = refl

send_queue-run_example :
    (batches : List (Bytes × List Bytes)) × (counter : ℕ) × (send_queue []
        (λ n. n)
        10
        20
        0
        (λ path. none)
        seeds
      ≡ some (batches, counter))
    × All (Runs conf web uuid (codes "/tmp") 0 none_yet) batches
send_queue-run_example =
    send_queue-run [] (λ n. n) 10 20 0 conf web uuid (codes "/tmp") uuid-bytes uuid-differ
      (λ cmd. refl) tmp_trims 0 none_yet (λ m h. (tt, tt)) (λ path. none) seeds

abbrev server_ini : List Bytes
server_ini =
    codes "# x = y\n"
    ∷ (codes "timeout = \"30\"\n"
        ∷ (codes "headers[] = A: b\n"
            ∷ (codes "tmp_html_dir=/a\n" ∷ (codes "tmp_html_dir = /tmp/\n" ∷ []))))

ini_read :
    read_settings unset server_ini
    ≡ some (record {
      header_list = codes "A: b" ∷ [];
      sendfile_shell = [];
      tmp_html_dir = codes "/tmp/";
      timeout = some (false, 30);
    })
unfolding read_settings setting_line set_member trim atoi
ini_read = refl

read_settings_lem_example :
    (t : Settings) × (read_settings unset server_ini ≡ some t)
    × Sets unset t (λ k. values_of k server_ini)
read_settings_lem_example = read_settings_lem unset server_ini

run_down-RunEffect_example :
    (conf' : DownConfig) × (p : Page) × (run_down web uuid true server_ini 0 list ≡ some p)
    × (conf'.sendfile_shell ≡ last_or [] (values_of (codes "sendfile_shell") server_ini))
    × (conf'.tmp_html_dir ≡ last_or [] (values_of (codes "tmp_html_dir") server_ini))
    × RunEffect conf' web uuid (codes "/tmp") p 0 items none_yet
unfolding rtrim setting_line trim
run_down-RunEffect_example =
    run_down-RunEffect web uuid (codes "/tmp") uuid-bytes uuid-differ (λ cmd. refl) server_ini 0
      list items none_yet refl
      (
        refl,
        (
          (codes "q" ∷ [], refl, (refl, (refl, (refl, tt)))),
          (([], refl, (refl, (refl, tt))), (([], refl, (refl, (refl, tt))), tt)),
        ),
      )
      (λ m h. (tt, tt))
