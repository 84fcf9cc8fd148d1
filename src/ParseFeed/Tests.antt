-- ===== src/ParseFeed/Tests.antt =====
-- The feeding of the parse queue at a concrete seed file, and the theorem about it there.
use studytest.Base.{◌≡◌, refl, List, [], ◌∷◌, some, Bool, Bytes, codes, same}
use studytest.Strings.{trim, rtrim, explode}
use studytest.Config.Item.{get_engine_item}
use studytest.DownFeed.{seed_line}
use studytest.ParseFeed.{store, to_parse, send_queue, not_sogou, check_sogou_parser}
use studytest.ParseFeed.Laws.{pages, Queues, send_queue-Queues}

abbrev seeds : List Bytes
seeds =
    codes "http://a/1\t/s/7_3/1.html\tq\n"
    ∷ codes "http://a/2\t/s/7_3/2.html\tq\n"
    ∷ codes "http://a/3\t/s/7_3/3.html\tq\n"
    ∷ []

-- the page 2 is parsed
abbrev readable : Bytes → Bool
readable path = same path (codes "/t/7_3/2.item")

-- The first line is a batch of its own.
two_batches :
    send_queue (codes "/t") readable seeds
    ≡ some (
      (codes "http://a/1\t/s/7_3/1.html\tq" ∷ [])
          ∷ (codes "http://a/3\t/s/7_3/3.html\tq" ∷ [])
          ∷ [],
      2,
    )
unfolding send_queue seed_line to_parse get_engine_item store trim rtrim explode
two_batches = refl

all_sogou :
    check_sogou_parser ((codes "3", codes "sogou-no-ad") ∷ []) (codes "h:1" ∷ []) (codes "g:1" ∷ [])
    ≡ codes "g:1" ∷ codes "h:1" ∷ []
unfolding check_sogou_parser not_sogou
all_sogou = refl

send_queue-Queues_example :
    Queues (send_queue (codes "/t") readable seeds) (pages (codes "/t") readable seeds)
send_queue-Queues_example = send_queue-Queues (codes "/t") readable seeds
