-- ===== src/ParseFeed.antt =====
-- down_parse_client/parse_client/parse_func.cpp: send_queue, which reads the seed file and puts the lines of
-- the pages that are not parsed yet into the parse queue, and check_sogou_parser. Whether a file can be read
-- is a parameter. A line is cut as in send_queue of down_func.cpp, whose text is the same. The batches are
-- the lists that go to `addQueue`, in order.
pub mod Laws
mod Tests
use studytest.Base.{
  ℕ, suc, ◌+◌, ◌%◌, List, [], ◌∷◌, ◌++◌, Option, some, none, Bool, true, false, ◌&&◌, Bytes, codes,
  ◌==◌, if◌then◌else◌, find, length, leb,
}
use studytest.DownFeed.{SeedLine, skipped, stray, page, seed_line}
use studytest.Config.Item.{Item, kept, found, get_engine_item}
use studytest.Config.Item

-- `item_file` behind get_engine_item, which leaves it empty if the path has no engine; `none` is a read
-- outside a string
abbrev pub item_file_of : Item → Option Bytes
item_file_of kept = some []
item_file_of Item.stray = none
item_file_of (found engine_id item_file) = some item_file

-- the variables of the loop, with the batches queued so far
pub record Feed : Type 0 where
  pub cur_list : List Bytes
  pub counter : ℕ
  pub batches : List (List Bytes)

-- a line that is to be parsed: `(counter++) % 20 == 0` queues what is stored
unfoldable pub store : Feed → Bytes → Feed
store f line =
    let cur_list = f.cur_list ++ line ∷ [] in
    if f.counter % 20 == 0
    then record f { cur_list = []; counter = suc f.counter; batches = f.batches ++ cur_list ∷ [] }
    else record f { cur_list = cur_list; counter = suc f.counter }

abbrev pub empty : Feed
empty = record { cur_list = []; counter = 0; batches = [] }

abbrev pub stored_if : Feed → Bytes → Option Bool → Option Feed
stored_if f line none = none
stored_if f line (some true) = some (store f line)
stored_if f line (some false) = some f

-- what is left is queued behind the loop
abbrev pub last_batch : List (List Bytes) → List Bytes → List (List Bytes)
last_batch batches [] = batches
last_batch batches (line ∷ lines) = batches ++ (line ∷ lines) ∷ []

module _ (task_dir : Bytes) (readable : Bytes → Bool) where
  -- whether the page of a line is to be parsed: it has no item file yet
  unfoldable pub to_parse : Bytes → Option Bool
  to_parse local_file = elim (item_file_of (get_engine_item task_dir local_file)) [
    | none ↦ none
    | some item_file ↦ some (if readable item_file then false else true)
  ]

  -- one round of the loop
  abbrev pub feed_line : Feed → SeedLine → Option Feed
  feed_line f skipped = some f
  feed_line f stray = none
  feed_line f (page line local_file) = stored_if f line (to_parse local_file)

  -- the loop over the file
  unfoldable pub feed_lines : Feed → List Bytes → Option Feed
  feed_lines f [] = some f
  feed_lines f (line ∷ lines) = elim (feed_line f (seed_line line)) [
    | none ↦ none
    | some f' ↦ feed_lines f' lines
  ]

  -- what `send_queue` queues and returns, of a file that it can open
  unfoldable pub send_queue : List Bytes → Option (List (List Bytes) × ℕ)
  unfolding feed_lines
  send_queue lines = elim (feed_lines empty lines) [
    | none ↦ none
    | some f ↦ some (last_batch f.batches f.cur_list, f.counter)
  ]

-- the loop of check_sogou_parser over the engines: how many are none of sogou's
unfoldable pub not_sogou : List (Bytes × Bytes) → ℕ
not_sogou [] = 0
not_sogou ((eid, name) ∷ engine_info) =
    let rest = not_sogou engine_info in
    elim (find name (codes "sogou")) [ none ↦ suc rest | some pos ↦ rest ]

-- `check_sogou_parser`: the hosts to parse on
unfoldable pub check_sogou_parser : List (Bytes × Bytes) → List Bytes → List Bytes → List Bytes
check_sogou_parser engine_info [] parse_hosts = parse_hosts
check_sogou_parser engine_info (h ∷ sogou_parse_hosts) parse_hosts =
    if leb (not_sogou engine_info) 0 then parse_hosts ++ (h ∷ sogou_parse_hosts) else parse_hosts
