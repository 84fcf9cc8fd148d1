-- ===== src/Parsing/Request.antt =====
-- down_parse_client/parse_client/send_parse.cpp: do_send_parse, from a line of the parse queue to the request
-- for the parser and what becomes of the page. The file system, the parser service and the reader of its
-- reply are parameters. A line has no NUL, since `fgets` has read it.
pub mod Laws
pub mod Seeded
use studytest.Base.{
  ℕ, zero, suc, List, [], ◌∷◌, ◌++◌, Option, some, none, Bool, true, false, ◌&&◌, ◌||◌, Bytes,
  codes, length, ltb, leb, ◌==◌, if◌then◌else◌, same, ℤ, pos, negsuc,
}
use studytest.Strings.{Outcome, leaves, strays, hangs, trim, explode}
use studytest.Config.Item.{Item, kept, found, get_engine_item}
use studytest.Config.Item
use studytest.Parsing.Page.{Read, content, overreads, unfinished, read_page}

-- `parse_arg` with the fields of its `extra`; `ad_type` is always "0" and `ret_action` always 2
pub record Request : Type 0 where
  pub send_dest : Bytes
  pub engine_id : Bytes
  pub task_id : Bytes
  pub query : Bytes
  pub html_dest : Bytes
  pub html_content : Bytes
  pub engine : Bytes

-- what the call reads of `clientConfig`; `page_limit` is `atoi` of `normal_page_limit_size`, as a `size_t`
pub record Conf : Type 0 where
  pub task_dir : Bytes
  pub task_id : Bytes
  pub dest_host : Bytes
  pub engine_info : List (Bytes × Bytes)
  pub page_limit : ℕ

-- a reply that the reader of JSON takes
pub record Root : Type 0 where
  pub is_member : Bytes → Bool
  pub as_int : Bytes → ℤ

-- `access` for reading, what a file holds if it can be opened, the parser (`none` is an exception), and the
-- reader of its reply
pub record Outside : Type 0 where
  pub readable : Bytes → Bool
  pub file : Bytes → Option Bytes
  pub parse_html : Request → Option Bytes
  pub read_reply : Bytes → Option Root

-- How the call ends: it returns, with the request that it made and the files that it removed; the exception
-- of the service leaves it; or it reads or writes outside a string or a buffer.
pub data Sent : Type 0 where
  returns : ℤ → Option Request → List Bytes → Sent
  throws : Request → Sent
  undefined : Sent

-- `engine_info[engine_id]`
abbrev pub engine_of : Bytes → List (Bytes × Bytes) → Bytes
engine_of engine_id [] = []
engine_of engine_id ((eid, engine) ∷ m) =
    if same eid engine_id then engine else engine_of engine_id m

-- the size of `tmp_str`
abbrev pub page_buffer : ℕ
page_buffer = 40960

-- what is behind the second item, each part with its tab
abbrev pub query_of : List Bytes → Bytes
query_of [] = []
query_of (item ∷ items) = codes "\t" ++ (item ++ query_of items)

abbrev pub send_dest_of : Conf → Bytes → Bytes
send_dest_of conf item_file = codes "root@" ++ (conf.dest_host ++ (codes ":" ++ item_file))

abbrev pub is_100 : ℤ → Bool
is_100 (pos n) = n == 100
is_100 (negsuc n) = false

-- 检查结果
unfoldable pub check_reply : Request → Option Root → Sent
check_reply request none = returns (negsuc 0) (some request) []
check_reply request (some root) =
    if root.is_member (codes "errno") && root.is_member (codes "errmsg")
    then (if is_100 (root.as_int (codes "errno"))
        then returns (pos 0) (some request) (request.html_dest ∷ [])
        else returns (pos 0) (some request) [])
    else returns (negsuc 0) (some request) []

module _ (conf : Conf) (out : Outside) where
  unfoldable pub ask : Request → Sent
  unfolding check_reply
  ask request = elim (out.parse_html request) [
    | none ↦ throws request
    | some ret_str ↦ check_reply request (out.read_reply ret_str)
  ]

  abbrev pub request_of : Bytes → Bytes → Bytes → Bytes → Bytes → Request
  request_of html_file query engine_id item_file html_content = record {
    send_dest = send_dest_of conf item_file;
    engine_id = engine_id;
    task_id = conf.task_id;
    query = query;
    html_dest = html_file;
    html_content = html_content;
    engine = engine_of engine_id conf.engine_info;
  }

  -- 校验html页面大小; `sprintf` of `send_dest` into a `char[1024]`
  unfoldable pub send_content : Bytes → Bytes → Bytes → Bytes → Read → Sent
  unfolding ask
  send_content html_file query engine_id item_file overreads = undefined
  send_content html_file query engine_id item_file unfinished = undefined
  send_content html_file query engine_id item_file (content html_content) =
      if ltb (length html_content) conf.page_limit
      then returns (negsuc 4) none (html_file ∷ [])
      else (if leb 1024 (length (send_dest_of conf item_file))
          then undefined
          else ask (request_of html_file query engine_id item_file html_content))

  abbrev pub send_file : Bytes → Bytes → Bytes → Bytes → Option Bytes → Sent
  send_file html_file query engine_id item_file none = returns (negsuc 3) none []
  send_file html_file query engine_id item_file (some file) =
      send_content html_file query engine_id item_file (read_page page_buffer file)

  -- `access(item_file) == 0 || engine_id.length() <= 0`
  unfoldable pub send_item : Bytes → Bytes → Item → Sent
  send_item html_file query kept = returns (negsuc 3) none []
  send_item html_file query Item.stray = undefined
  send_item html_file query (found engine_id item_file) =
      if out.readable item_file || leb (length engine_id) 0
      then returns (negsuc 3) none []
      else send_file html_file query engine_id item_file (out.file html_file)

  abbrev pub send_query : Bytes → Outcome → Sent
  send_query html_file (leaves query) =
      send_item html_file query (get_engine_item conf.task_dir html_file)
  send_query html_file strays = undefined
  send_query html_file hangs = undefined

  -- `tmp_line[0]` and `tmp_line[1]` are read whatever the size
  unfoldable pub send_parts : List Bytes → Sent
  send_parts [] = undefined
  send_parts (url ∷ []) = undefined
  send_parts (url ∷ (html_file ∷ items)) =
      if out.readable html_file
      then send_query html_file (trim (query_of items) (codes "\t\n "))
      else returns (negsuc 0) none []

  unfoldable pub do_send_parse : Bytes → Sent
  do_send_parse line = send_parts (explode line (codes "\t") [])
