-- ===== src/Parsing/Request/Seeded.antt =====
-- What do_send_parse makes of a line that generateInfo has written.
use studytest.Base.{
  ℕ, ◌≡◌, ◌≤◌, ◌<◌, refl, ap, ◌∙◌, [], ◌++◌, append-nil, some, false, true, Bytes, codes, length,
  leb, has, arith, ltb,
}
use studytest.Strings.{leaves, trim}
use studytest.Strings.Split.{Lacks}
use studytest.Strings.Ends.{trim-front}
use studytest.Config.Item.{found, item_path}
use studytest.Seeds.{seed_text, snap_dir}
use studytest.Seeds.Laws.{name_of}
use studytest.Seeds.Lines.{
  IsFramed, seed_text-parts, page_path-Lacks, get_engine_item-found, blanks,
}
use studytest.Parsing.Page.{content, IsText, read_page_short}
use studytest.Parsing.Request.{
  Conf, Outside, page_buffer, send_dest_of, ask, request_of, send_content, send_file, send_item,
  send_query, send_parts, do_send_parse,
}

-- A page that is there and not parsed yet, long enough and short enough for the parser.
pub record IsReady (conf : Conf) (out : Outside) (html_file item_file file : Bytes) : Type 0 where
  pub page_there : out.readable html_file ≡ true
  pub not_parsed : out.readable item_file ≡ false
  pub opens : out.file html_file ≡ some file
  pub text : IsText file
  pub big : conf.page_limit ≤ length file
  pub small : length file < page_buffer
  pub fits : length (send_dest_of conf item_file) < 1024

trim-query :
    (query : Bytes)
    → IsFramed query query
    → trim (codes "\t" ++ (query ++ [])) (codes "\t\n ") ≡ leaves query
trim-query query f =
    ap (λ t. trim (codes "\t" ++ t) (codes "\t\n ")) (append-nil query)
    ∙ trim-front query f.behind (codes "\t\n ") b'\t' f.first f.last f.begins f.front f.ends refl
        (fewer f.first f.first_stays) (fewer f.last f.last_stays)
  where
    fewer : (c : ℕ) → has blanks c ≡ false → has (codes "\t\n ") c ≡ false
    fewer c h = ground (arith, h)

module _ (conf : Conf) (out : Outside) where
  send_content-ask :
      (html_file query eid item_file file : Bytes)
      → conf.page_limit ≤ length file
      → length (send_dest_of conf item_file) < 1024
      → send_content conf out html_file query eid item_file (content file)
        ≡ ask conf out (request_of conf out html_file query eid item_file file)
  unfolding send_content
  send_content-ask html_file query eid item_file file big fits =
      let enough : ltb (length file) conf.page_limit ≡ false = ground arith in
      let room : leb 1024 (length (send_dest_of conf item_file)) ≡ false = ground arith in
      rw enough (rw room refl)

  send_item-ask :
      (html_file query eid item_file file : Bytes)
      → 0 < length eid
      → IsReady conf out html_file item_file file
      → send_item conf out html_file query (found eid item_file)
        ≡ ask conf out (request_of conf out html_file query eid item_file file)
  unfolding send_item
  send_item-ask html_file query eid item_file file he h =
      let named : leb (length eid) 0 ≡ false = ground arith in
      rw (h.not_parsed, send_item)
        (rw named (
          ap (send_file conf out html_file query eid item_file) h.opens
          ∙ ap (send_content conf out html_file query eid item_file)
              (read_page_short page_buffer file h.text h.small)
          ∙ send_content-ask html_file query eid item_file file h.big h.fits))

  -- A line that the feeding thread took from the seed file, as generateInfo writes it, makes the parser
  -- be asked once, with the query of the line, the engine and the item file of the page's path, the path and
  -- the whole page. The page is there and not parsed yet, holds no NUL, has at least the limit and less than
  -- the buffer of 40960 bytes, and the destination of the item file fits into its buffer of 1024. The
  -- engine's number is not empty, the query begins and ends with no blank, and no tab, slash or underscore
  -- is where the line and the path are cut.
  pub do_send_parse-seed_text :
      (snapshot eid eurl query file : Bytes)
      → 0 < length eid
      → Lacks (codes "_") conf.task_id
      → Lacks (codes "_") eid
      → Lacks (codes "/") conf.task_id
      → Lacks (codes "/") eid
      → Lacks (codes "\t") eurl
      → Lacks (codes "\t") query
      → Lacks (codes "\t") (snap_dir snapshot conf.task_id eid)
      → IsFramed query query
      → let path =
          snap_dir snapshot conf.task_id eid ++ (codes "/" ++ (name_of query ++ codes ".html")) in
        let item = item_path conf.task_dir (conf.task_id ++ (codes "_" ++ eid)) (name_of query) in
        IsReady conf out path item file
        → do_send_parse conf out (seed_text eurl path query)
          ≡ ask conf out (request_of conf out path query eid item file)
  unfolding do_send_parse send_parts
  do_send_parse-seed_text snapshot eid eurl query file he ut ue st se te tq td f h =
      let path =
        snap_dir snapshot conf.task_id eid ++ (codes "/" ++ (name_of query ++ codes ".html")) in
      let item = item_path conf.task_dir (conf.task_id ++ (codes "_" ++ eid)) (name_of query) in
      let parts =
        seed_text-parts eurl path query te (page_path-Lacks snapshot conf.task_id eid query td)
          tq in
      let engine =
        get_engine_item-found conf.task_dir snapshot conf.task_id eid query ut ue st se in
      ap (send_parts conf out) parts
      ∙ rw (h.page_there, send_parts)
          (ap (send_query conf out path) (trim-query query f)
            ∙ ap (send_item conf out path query) engine
            ∙ send_item-ask path query eid item file he h)
