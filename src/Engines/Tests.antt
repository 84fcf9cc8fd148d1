-- ===== src/Engines/Tests.antt =====
-- The engines of a concrete task, and the theorems about them there.
use studytest.Base.{
  ◌≡◌, refl, List, [], ◌∷◌, ◌++◌, some, Bool, true, false, Bytes, codes, if◌then◌else◌, pos, arith,
}
use studytest.Base.Maps.{less, get, put}
use studytest.Base.Maps.Order.{IsSorted}
use studytest.Strings.{trim, explode}
use studytest.Sql.{Fields}
use studytest.Sql.Listing.{number_text, int_text}
use studytest.ParseFeed.{check_sogou_parser}
use studytest.Engines.{
  field, engine_name, Action, rm_rf, mkdir, unknown, going, halted, make_dir, prepare_engine,
  prepare_engines, no_proxy, asks, divides_by_zero, update_proxy_list, atoi, ask_num, only_sogou,
  request,
}
use studytest.Engines.Loop.{IsFine}
use studytest.Engines.Proxies.{all_named, proxies_for, update_proxy_list-check_sogou_parser}

abbrev so : Bytes × Fields
so = (codes "3", (codes "eid", codes "3") ∷ ((codes "name", codes "sogou.com") ∷ []))

abbrev bd : Bytes × Fields
bd = (codes "5", (codes "eid", codes "5") ∷ ((codes "name", codes "www.baidu") ∷ []))

abbrev other : Bytes × Fields
other = (codes "7", (codes "eid", codes "7") ∷ ((codes "name", codes "bing") ∷ []))

-- no directory is there, and each can be made
abbrev none_there : Bytes → Bool
none_there dir = false

abbrev all_made : Bytes → Bool
all_made dir = true

two_engines :
    prepare_engines
      (codes "/t")
      (codes "1")
      1
      none_there
      all_made
      (so ∷ (bd ∷ (other ∷ [])))
      (going [] [])
    ≡ halted unknown ((codes "3", codes "sogou-no-ad") ∷ ((codes "5", codes "baidu") ∷ [])) (
        rm_rf (codes "/t/1_3")
        ∷ (mkdir (codes "/t/1_3") ∷ (rm_rf (codes "/t/1_5") ∷ (mkdir (codes "/t/1_5") ∷ []))))
unfolding prepare_engines prepare_engine make_dir engine_name field get put less
two_engines = refl

-- with the setting left empty
no_setting :
    update_proxy_list (codes "http://p") ((codes "5", codes "baidu") ∷ []) 60 [] ≡ divides_by_zero
unfolding update_proxy_list only_sogou atoi ask_num
no_setting = refl

answered :
    request true (λ url. some (200, codes "1.2.3.4:80\r\n5.6.7.8:90\r\n")) (codes "http://p") []
    ≡ some (pos 0, codes "1.2.3.4:80" ∷ (codes "5.6.7.8:90" ∷ []))
unfolding request trim explode
answered = refl

so-IsFine : IsFine (codes "/t") (codes "1") 1 none_there all_made so
unfolding field get engine_name
so-IsFine = record {
  listed = refl;
  name = codes "sogou-no-ad";
  known = refl;
  fits = refl;
  usable = refl;
}

bd-IsFine : IsFine (codes "/t") (codes "1") 1 none_there all_made bd
unfolding field get engine_name
bd-IsFine = record { listed = refl; name = codes "baidu"; known = refl; fits = refl; usable = refl }

in_order : IsSorted (so ∷ (bd ∷ []))
unfolding less
in_order = ((refl, tt), (tt, tt))

-- a setting below 0 is a large divisor
below_zero :
    update_proxy_list (codes "http://p") ((codes "5", codes "baidu") ∷ []) 60 (codes "-1")
    ≡ asks (codes "http://p&num=0")
unfolding update_proxy_list only_sogou atoi ask_num int_text number_text
below_zero = refl

update_proxy_list-check_sogou_parser_example :
    (engine_info : List (Bytes × Bytes)) × (made : List Action) × (text : Bytes) × (prepare_engines
        (codes "/t")
        (codes "1")
        1
        none_there
        all_made
        (so ∷ (bd ∷ []))
        (going [] [])
      ≡ going engine_info made)
    × (check_sogou_parser engine_info (codes "h:1" ∷ []) (codes "g:1" ∷ []) ≡ (
        if all_named (so ∷ (bd ∷ [])) then codes "g:1" ∷ (codes "h:1" ∷ []) else codes "g:1" ∷ []))
    × (number_text (proxies_for 60 20) ≡ some text)
    × (update_proxy_list (codes "http://p") engine_info 60 (codes "20") ≡ (
        if all_named (so ∷ (bd ∷ []))
        then no_proxy
        else asks (codes "http://p" ++ (codes "&num=" ++ text))))
unfolding atoi
update_proxy_list-check_sogou_parser_example =
    update_proxy_list-check_sogou_parser (codes "/t") (codes "1") 1 none_there all_made
      (so ∷ (bd ∷ [])) [] (codes "http://p") 60 19 (codes "20") (codes "h:1" ∷ [])
      (codes "g:1" ∷ []) (so-IsFine, (bd-IsFine, tt)) in_order refl (omega arith) (omega arith)
