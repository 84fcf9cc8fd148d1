-- ===== src/Seeds/Tests.antt =====
-- The seed file of a concrete task, and the theorems about it there.
use mathlib.Core.List.{cons-ne-nil}
use studytest.Base.{
  ℕ, ◌≡◌, refl, List, [], ◌∷◌, ◌++◌, some, true, Bytes, codes, replicate, false, ◌==◌,
  if◌then◌else◌, All, arith,
}
use studytest.Strings.{explode, rtrim}
use studytest.UrlCodec.{url_encode}
use studytest.Md5.{Md5, initial}
use studytest.Config.Item.{found, item_path, get_engine_item}
use studytest.Config.Item.Paths.{IsName}
use studytest.DownFeed.{page, seed_line}
use studytest.Seeds.{
  Engine, put_query, snap_dir, seed_text, Writing, going, throws, write_one, write_pages,
}
use studytest.Seeds.Laws.{
  view, tells, ends, tell_all, pairs, queries_from, write_pages_lem, name_of, IsShort,
}
use studytest.Seeds.Lines.{seed_line-found}

abbrev fresh : Md5
fresh = record {
  state = initial;
  count0 = 0;
  count1 = 0;
  buffer = replicate 64 0;
  digest_bytes = replicate 16 0;
  finished = false;
}

abbrev engine : Engine
engine = record { eid = codes "3"; url = codes "http://e/s?q=__QUERY__&n=10" }

abbrev one_page : ℕ → List Bytes
one_page n = if n == 1 then codes "a b" ∷ [] else []

abbrev empty : Writing
empty = going (record { md5 = fresh; lines = []; page_counter = 0 })

query_put : put_query engine.url (codes "a+b") ≡ some (codes "http://e/s?q=a+b&n=10")
unfolding put_query
query_put = refl

-- an address without the place for the query
no_place :
    view (
      write_one
        (codes "/s")
        (codes "7")
        (λ d. true)
        (record { eid = codes "3"; url = codes "http://e/" })
        (codes "a")
        (record { md5 = fresh; lines = []; page_counter = 0 }))
    ≡ ends throws [] 0
unfolding write_one put_query url_encode
no_place = refl

item_of_page :
    get_engine_item (codes "/t") (codes "/s/2014-08/7_3/0cc175b9c0f1b6a831c399e269772661.html")
    ≡ found (codes "3") (codes "/t/7_3/0cc175b9c0f1b6a831c399e269772661.item")
unfolding get_engine_item explode rtrim
item_of_page = refl

-- The ending ".html" is taken off as a set of characters.
item_of_html :
    get_engine_item (codes "/t") (codes "/s/7_3/hotmail.html")
    ≡ found (codes "3") (codes "/t/7_3/hotmai.item")
unfolding get_engine_item explode rtrim
item_of_html = refl

abbrev ab_name : IsName (codes "ab")
ab_name = record { front = codes "a"; last = b'b'; ends = refl; stays = refl; one_part = refl }

seed_line-found_example :
    let path =
      snap_dir (codes "/s") (codes "7") (codes "3")
      ++ (codes "/" ++ (name_of (codes "a b") ++ codes ".html")) in
    (seed_line (seed_text (codes "http://e") path (codes "a b") ++ codes "\n")
      ≡ page (seed_text (codes "http://e") path (codes "a b")) path)
    × (get_engine_item (codes "/t") path
        ≡ found (codes "3") (
            item_path (codes "/t") (codes "7" ++ (codes "_" ++ codes "3")) (name_of (codes "a b"))))
seed_line-found_example =
    seed_line-found (codes "/t") (codes "/s") (codes "7") (codes "3") (codes "http://e")
      (codes "a b") refl refl refl refl refl refl refl
      (record {
        first = b'h';
        behind = codes "ttp://e";
        begins = refl;
        first_stays = refl;
        front = codes "a ";
        last = b'b';
        ends = refl;
        last_stays = refl;
      })

one_page-IsShort : (p : ℕ) → All IsShort (one_page p)
one_page-IsShort p = ground arith

write_pages_lem_example :
    (w' : Writing) × (write_pages
        (codes "/s")
        (codes "7")
        (λ d. true)
        (engine ∷ [])
        one_page
        2
        1
        empty
      ≡ some w')
    × (view w'
        ≡ tell_all
            (codes "/s")
            (codes "7")
            (λ d. true)
            (tells [] 0)
            (pairs (engine ∷ []) (queries_from one_page 1 1)))
write_pages_lem_example =
    write_pages_lem (codes "/s") (codes "7") (λ d. true) (engine ∷ []) one_page 2 1 1 empty
      (omega arith) (cons-ne-nil _ _, refl) one_page-IsShort refl
