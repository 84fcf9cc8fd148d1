-- ===== src/Parsing/Tests.antt =====
-- The parsing threads at concrete lines, pages and replies, and the theorems about them there.
use mathlib.Core.List.{cons-ne-nil}
use studytest.Base.{
  ◌≡◌, ◌≢◌, ◌<◌, ◌≤◌, ◌↔◌, refl, [], ◌∷◌, ◌++◌, some, true, Bytes, codes, length, arith,
  starts_with, false, ◌≤◌, List, length-append, pos,
}
use studytest.ParseQueue.{add_queue, get_queue}
use studytest.Strings.{explode}
use studytest.Config.Item.{item_path}
use studytest.Md5.Hex.{md5-size}
use studytest.Seeds.{seed_text, snap_dir}
use studytest.Seeds.Laws.{name_of}
use studytest.Parsing.{System, Run, Step, exited, deciding, working, sending, emptying, done, start}
use studytest.ParseFeed.{store, to_parse, send_queue}
use studytest.ParseFeed.Laws.{pages}
use studytest.DownFeed.{seed_line}
use studytest.Config.Item.{get_engine_item}
use studytest.Strings.{trim, rtrim}
use studytest.Parsing.Pass.{send_queue-parsed}
use studytest.Parsing.Safety.{count, exited-parsed}
use studytest.Parsing.Page.{
  content, overreads, unfinished, IsText, read_page, read_page_lem, c_text, read_loop, behind,
}
use studytest.Parsing.Request.{Conf, Outside, Root, ask, request_of, do_send_parse}
use studytest.Parsing.Request.Laws.{IsCareful, do_send_parse-IsCareful}
use studytest.Parsing.Request.Seeded.{do_send_parse-seed_text}

abbrev line : Bytes
line = codes "http://e\t/s/7_3/a.html\tq"

-- One thread, one line: it is added, got and handed on; the second pass finds nothing; and the thread leaves
-- behind `is_finish = 1`.
abbrev ended : System
ended = record {
  queue = [];
  is_finish = true;
  workers = exited ∷ [];
  feeder = done;
  fed = line ∷ [];
  parsed = line ∷ [];
}

abbrev begun : System
begun = start 1 ((line ∷ []) ∷ []) 1

abbrev handed : System
handed = record begun { feeder = sending [] 1; fed = line ∷ []; parsed = line ∷ [] }

first_line : Run begun handed
unfolding add_queue get_queue
first_line =
    let s1 : System = record begun { queue = line ∷ []; feeder = sending [] 1; fed = line ∷ [] } in
    let s2 : System = record s1 { queue = []; workers = working (line ∷ []) ∷ [] } in
    Run.next
      (Run.next (Run.next Run.here (Step.push begun (line ∷ []) [] 1 (line ∷ []) refl refl))
        (Step.take s1 [] [] 0 (line ∷ []) [] refl (omega arith) refl))
      (Step.parse s2 [] [] line [] refl)

history : Run begun ended
unfolding get_queue
history =
    let s4 : System = record handed { feeder = emptying 1 } in
    let s5 : System = record handed { feeder = sending [] 0 } in
    let s6 : System = record handed { feeder = emptying 0 } in
    let s7 : System = record s6 { workers = deciding ∷ [] } in
    let s8 : System = record s7 { feeder = done; is_finish = true } in
    Run.next
      (Run.next
        (Run.next
          (Run.next
            (Run.next (Run.next first_line (Step.pass handed 1 refl))
              (Step.repeat s4 0 0 [] refl refl))
            (Step.pass s5 0 refl))
          (Step.take s6 [] [] 3 [] [] refl (omega arith) refl))
        (Step.finish s7 refl refl))
      (Step.leave s8 [] [] refl refl)

exited-parsed_example :
    (ended.queue ≡ []) × ((l : Bytes) → count l ended.parsed ≡ count l ended.fed)
exited-parsed_example = exited-parsed 1 1 ((line ∷ []) ∷ []) history (cons-ne-nil _ _) (refl, tt)

-- a seed file with one page that has no item file
abbrev seeds : List Bytes
seeds = codes "http://e\t/s/7_3/a.html\tq\n" ∷ []

one_fed : send_queue (codes "/t") (λ path. false) seeds ≡ some ((line ∷ []) ∷ [], 1)
unfolding send_queue seed_line to_parse get_engine_item store trim rtrim explode
one_fed = refl

one_page : pages (codes "/t") (λ path. false) seeds ≡ some (line ∷ [])
unfolding seed_line to_parse get_engine_item trim rtrim explode
one_page = refl

send_queue-parsed_example : count line (line ∷ []) ≤ count line ended.parsed
send_queue-parsed_example =
    send_queue-parsed (codes "/t") (λ path. false) seeds (line ∷ []) ((line ∷ []) ∷ []) 1 1 one_page
      one_fed history (cons-ne-nil _ _) (refl, tt) line

-- What a round finds nothing in stays in the buffer, behind the next piece.
stale : read_page 4 (0 ∷ codes "bcde") ≡ overreads
unfolding read_page read_loop c_text behind
stale = refl

cut_at_nul : read_page 4 (codes "a" ++ (0 ∷ codes "cde")) ≡ content (codes "ae")
unfolding read_page read_loop c_text behind
cut_at_nul = refl

read_page_lem_example :
    (read_page 4 (codes "page") ≢ unfinished)
    × (IsText (codes "page")
        → ((length (codes "page") < 4) ↔ (read_page 4 (codes "page") ≡ content (codes "page")))
          × ((4 ≤ length (codes "page")) ↔ (read_page 4 (codes "page") ≡ overreads)))
read_page_lem_example = read_page_lem 4 (codes "page") (omega arith)

abbrev conf : Conf
conf = record {
  task_dir = codes "/t";
  task_id = codes "7";
  dest_host = codes "h";
  engine_info = (codes "3", codes "sogou") ∷ [];
  page_limit = 4;
}

-- the parser finds every page unfit
abbrev root : Root
root = record { is_member = λ k. true; as_int = λ k. pos 100 }

-- every page is there and holds "<b/>", and no item file is
abbrev out : Outside
out = record {
  readable = λ path. starts_with (codes "/s") path;
  file = λ path. some (codes "<b/>");
  parse_html = λ r. some (codes "{}");
  read_reply = λ reply. some root;
}

do_send_parse-IsCareful_example :
    IsCareful conf out
      (codes "/s/7_3/a.html")
      (do_send_parse conf out (codes "http://e\t/s/7_3/a.html\tq"))
unfolding explode
do_send_parse-IsCareful_example =
    do_send_parse-IsCareful conf out (codes "http://e\t/s/7_3/a.html\tq") (codes "http://e")
      (codes "/s/7_3/a.html") (codes "q" ∷ []) refl

do_send_parse-seed_text_example :
    let path =
      snap_dir (codes "/s") (codes "7") (codes "3")
      ++ (codes "/" ++ (name_of (codes "q") ++ codes ".html")) in
    let item =
      item_path (codes "/t") (codes "7" ++ (codes "_" ++ codes "3")) (name_of (codes "q")) in
    do_send_parse conf out (seed_text (codes "http://e") path (codes "q"))
    ≡ ask conf out (request_of conf out path (codes "q") (codes "3") item (codes "<b/>"))
do_send_parse-seed_text_example =
    do_send_parse-seed_text conf out (codes "/s") (codes "3") (codes "http://e") (codes "q")
      (codes "<b/>") (omega arith) refl refl refl refl refl refl refl
      (record {
        first = b'q';
        behind = [];
        begins = refl;
        first_stays = refl;
        front = [];
        last = b'q';
        ends = refl;
        last_stays = refl;
      })
      (record {
        page_there = refl;
        not_parsed = refl;
        opens = refl;
        text = (
          (λ e. omega (arith, e)),
          ((λ e. omega (arith, e)), ((λ e. omega (arith, e)), ((λ e. omega (arith, e)), tt))),
        );
        big = omega arith;
        small = omega arith;
        fits =
            omega
              (arith, md5-size (codes "q"), length-append (name_of (codes "q")) (codes ".item"));
      })
