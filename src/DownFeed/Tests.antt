-- ===== src/DownFeed/Tests.antt =====
-- The feeding of the download queue at a concrete seed file, and the theorem about it there.
use studytest.Base.{◌≡◌, refl, List, [], ◌∷◌, some, none, Bytes, codes, length, same, if◌then◌else◌}
use studytest.Strings.{trim, explode}
use studytest.DownFeed.{Files, seed_line, to_load, get_proxy_host, store, send_queue}
use studytest.DownFeed.Laws.{pages, lines_of}
use studytest.DownFeed.Fill.{IsSized}
use studytest.DownFeed.Batches.{send_queue-IsSized}

-- a page of 100 bytes, and one of 9000
abbrev disk : Files
disk path =
    if same path (codes "/d/1.html")
    then some 100
    else if same path (codes "/d/2.html")
    then some 9000
    else none

abbrev seeds : List Bytes
seeds =
    codes "http://a/1\t/d/1.html\tq\n"
    ∷ codes "http://a/2\t/d/2.html\tq\n"
    ∷ codes "\n"
    ∷ codes "http://a/3\t/d/3.html\tq\n"
    ∷ codes "http://a/4\t/d/4.html\tq"
    ∷ []

abbrev proxies : List Bytes
proxies = codes "p0" ∷ codes "p1" ∷ []

-- With one page for each proxy the first batch has two.
batches_of_one :
    send_queue proxies (λ n. n) 1024 1 0 disk seeds
    ≡ some (
      (codes "p1", codes "http://a/1\t/d/1.html\tq" ∷ codes "http://a/3\t/d/3.html\tq" ∷ [])
          ∷ (codes "p0", codes "http://a/4\t/d/4.html\tq" ∷ [])
          ∷ [],
      3,
    )
unfolding send_queue seed_line to_load get_proxy_host store trim explode
batches_of_one = refl

send_queue-IsSized_example :
    (batches : List (Bytes × List Bytes)) × (send_queue proxies (λ n. n) 1024 1 0 disk seeds
      ≡ some (batches, length (pages 1024 disk seeds)))
    × (lines_of batches ≡ pages 1024 disk seeds)
    × IsSized 2 1 batches
send_queue-IsSized_example = send_queue-IsSized proxies (λ n. n) 1024 1 0 disk seeds
