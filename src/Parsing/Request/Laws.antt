-- ===== src/Parsing/Request/Laws.antt =====
-- What do_send_parse asks the parser for, and when it removes a page.
use studytest.Base.{
  ◌≡◌, ◌<◌, refl, ap, List, [], ◌∷◌, Option, some, none, true, false, ◌&&◌, Bytes, codes, length,
  ltb, leb, ℤ, pos, negsuc, Bool-cases, Option-cases, inl, inr, ltb→lt, ==_iff,
}
use studytest.Strings.{Outcome, leaves, strays, hangs, trim, explode}
use studytest.Config.Item.{Item, kept, found, get_engine_item}
use studytest.Parsing.Page.{Read, content, overreads, unfinished, read_page}
use studytest.Parsing.Request.{
  Request, Conf, Root, Outside, Sent, returns, throws, undefined, page_buffer, send_dest_of, is_100,
  check_reply, ask, request_of, send_content, send_file, send_item, send_query, send_parts,
  query_of, do_send_parse,
}

-- Why a page may be removed, and what is sure otherwise.
pub data IsCareful (conf : Conf) (out : Outside) (html_file : Bytes) : Sent → Type 0 where
  keeps : (r : ℤ) (asked : Option Request) → IsCareful conf out html_file (returns r asked [])
  too_small :
      (engine_id item_file file text : Bytes)
      → get_engine_item conf.task_dir html_file ≡ found engine_id item_file
      → out.readable item_file ≡ false
      → out.file html_file ≡ some file
      → read_page page_buffer file ≡ content text
      → length text < conf.page_limit
      → IsCareful conf out html_file (returns (negsuc 4) none (html_file ∷ []))
  rejected :
      (engine_id item_file reply : Bytes) (request : Request) (root : Root)
      → get_engine_item conf.task_dir html_file ≡ found engine_id item_file
      → out.readable item_file ≡ false
      → out.parse_html request ≡ some reply
      → out.read_reply reply ≡ some root
      → root.as_int (codes "errno") ≡ pos 100
      → IsCareful conf out html_file (returns (pos 0) (some request) (html_file ∷ []))
  threw : (request : Request) → IsCareful conf out html_file (throws request)
  no_matter : IsCareful conf out html_file undefined

is_100-pos : (n : ℤ) → is_100 n ≡ true → n ≡ pos 100
is_100-pos (pos n) h = ap pos ((==_iff n 100).0 h)
is_100-pos (negsuc n) h = cc

module _ (conf : Conf) (out : Outside) where
  reply-IsCareful :
      (engine_id item_file reply : Bytes) (request : Request) (o : Option Root)
      → get_engine_item conf.task_dir request.html_dest ≡ found engine_id item_file
      → out.readable item_file ≡ false
      → out.parse_html request ≡ some reply
      → out.read_reply reply ≡ o
      → IsCareful conf out request.html_dest (check_reply request o)
  unfolding check_reply
  reply-IsCareful engine_id item_file reply request none i ri p e = keeps _ _
  reply-IsCareful engine_id item_file reply request (some root) i ri p e =
      elim (Bool-cases (root.is_member (codes "errno") && root.is_member (codes "errmsg"))) [
        | inr absent ↦ rw absent (keeps _ _)
        | inl there ↦ rw there (elim (Bool-cases (is_100 (root.as_int (codes "errno")))) [
          | inr absent ↦ rw absent (keeps _ _)
          | inl hundred ↦
              rw hundred
                (rejected engine_id item_file reply request root i ri p e (is_100-pos _ hundred))
        ])
      ]

  ask-IsCareful :
      (engine_id item_file : Bytes) (request : Request)
      → get_engine_item conf.task_dir request.html_dest ≡ found engine_id item_file
      → out.readable item_file ≡ false
      → IsCareful conf out request.html_dest (ask conf out request)
  unfolding ask
  ask-IsCareful engine_id item_file request i ri = elim (Option-cases (out.parse_html request)) [
    | inl absent ↦ rw (absent, ask) (threw request)
    | inr (reply, there) ↦
        rw (there, ask)
          (reply-IsCareful engine_id item_file reply request (out.read_reply reply) i ri there refl)
  ]

  content-IsCareful :
      (html_file query engine_id item_file file : Bytes) (r : Read)
      → get_engine_item conf.task_dir html_file ≡ found engine_id item_file
      → out.readable item_file ≡ false
      → out.file html_file ≡ some file
      → read_page page_buffer file ≡ r
      → IsCareful conf out html_file (send_content conf out html_file query engine_id item_file r)
  unfolding send_content
  content-IsCareful html_file query engine_id item_file file overreads i ri f e = no_matter
  content-IsCareful html_file query engine_id item_file file unfinished i ri f e = no_matter
  content-IsCareful html_file query engine_id item_file file (content text) i ri f e =
      elim (Bool-cases (ltb (length text) conf.page_limit)) [
        | inl small ↦ rw small (too_small engine_id item_file file text i ri f e (ltb→lt _ _ small))
        | inr big ↦ rw big (elim (Bool-cases (leb 1024 (length (send_dest_of conf item_file)))) [
          | inl long ↦ rw long no_matter
          | inr fits ↦ rw fits (
              ask-IsCareful engine_id item_file
                (request_of conf out html_file query engine_id item_file text) i ri)
        ])
      ]

  file-IsCareful :
      (html_file query engine_id item_file : Bytes) (o : Option Bytes)
      → get_engine_item conf.task_dir html_file ≡ found engine_id item_file
      → out.readable item_file ≡ false
      → out.file html_file ≡ o
      → IsCareful conf out html_file (send_file conf out html_file query engine_id item_file o)
  file-IsCareful html_file query engine_id item_file none i ri f = keeps _ _
  file-IsCareful html_file query engine_id item_file (some file) i ri f =
      content-IsCareful html_file query engine_id item_file file (read_page page_buffer file) i ri f
        refl

  item-IsCareful :
      (html_file query : Bytes) (item : Item)
      → get_engine_item conf.task_dir html_file ≡ item
      → IsCareful conf out html_file (send_item conf out html_file query item)
  unfolding send_item
  item-IsCareful html_file query kept i = keeps _ _
  item-IsCareful html_file query Item.stray i = no_matter
  item-IsCareful html_file query (found engine_id item_file) i =
      elim (Bool-cases (out.readable item_file)) [
        | inl parsed ↦ rw parsed (keeps _ _)
        | inr not_parsed ↦ elim (Bool-cases (leb (length engine_id) 0)) [
          | inl no_engine ↦ rw not_parsed (rw no_engine (keeps _ _))
          | inr engine ↦ rw not_parsed (
              rw engine (
                file-IsCareful html_file query engine_id item_file (out.file html_file) i not_parsed
                  refl))
        ]
      ]

  query-IsCareful :
      (html_file : Bytes) (o : Outcome)
      → IsCareful conf out html_file (send_query conf out html_file o)
  query-IsCareful html_file (leaves query) =
      item-IsCareful html_file query (get_engine_item conf.task_dir html_file) refl
  query-IsCareful html_file strays = no_matter
  query-IsCareful html_file hangs = no_matter

  -- Whatever the line, the files and the parser, unless the call reads or writes outside a string or a
  -- buffer: a page is removed only if it is the one of the line, its item file is not there, and either its
  -- content is below the limit and the parser was not asked, or the parser's reply to the request for it has
  -- the number 100. At most this one file is removed.
  pub do_send_parse-IsCareful :
      (line url html_file : Bytes) (items : List Bytes)
      → explode line (codes "\t") [] ≡ url ∷ (html_file ∷ items)
      → IsCareful conf out html_file (do_send_parse conf out line)
  unfolding do_send_parse send_parts
  do_send_parse-IsCareful line url html_file items e =
      rw (e, do_send_parse, send_parts)
        (elim (Bool-cases (out.readable html_file)) [
          | inr absent ↦ rw absent (keeps _ _)
          | inl there ↦ rw there (query-IsCareful html_file (trim (query_of items) (codes "\t\n ")))
        ])
