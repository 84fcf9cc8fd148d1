-- ===== src/Seeds.antt =====
-- down_parse_client/clientConfig.cpp, generateInfo: the loop that writes the seed file, one line for each
-- query of the task and each engine. The pages of queries are a parameter, each in the order in which the
-- map that `getList` fills is walked. So is whether the snapshot directory of an engine can be used, behind
-- the deletion and the creation that the loop asks the system for.
pub mod Laws
pub mod Lines
mod Tests
use studytest.Base.{
  ℕ, zero, suc, ◌+◌, List, [], ◌∷◌, ◌++◌, Option, some, none, Bool, Bytes, codes, length, take,
  drop, leb, if◌then◌else◌, find,
}
use studytest.UrlCodec.{url_encode}
use studytest.Md5.{Md5, reset, update, to_string}

-- the columns of `tb_engine` that the loop reads
pub record Engine : Type 0 where
  pub eid : Bytes
  pub url : Bytes

-- Why the loop may end early: `replace` throws, the line is longer than its buffer, or the directory can
-- not be made.
pub data Stop : Type 0 where
  throws overruns unusable : Stop

abbrev pub query_anch : Bytes
query_anch = codes "__QUERY__"

-- `eurl.replace(eurl.find(query_anch), query_anch.length(), encode_query)`; `none` throws
unfoldable pub put_query : Bytes → Bytes → Option Bytes
put_query eurl encode_query = elim (find eurl query_anch) [
  | none ↦ none
  | some pos ↦ some (take pos eurl ++ (encode_query ++ drop (pos + length query_anch) eurl))
]

-- the snapshot directory of an engine
abbrev pub snap_dir : Bytes → Bytes → Bytes → Bytes
snap_dir snapshot task_id eid = snapshot ++ (codes "/" ++ (task_id ++ (codes "_" ++ eid)))

-- the line of the seed file, without its end
abbrev pub seed_text : Bytes → Bytes → Bytes → Bytes
seed_text eurl snap query = eurl ++ (codes "\t" ++ (snap ++ (codes "\t" ++ query)))

pub record Seeds : Type 0 where
  pub md5 : Md5
  pub lines : List Bytes
  pub page_counter : ℕ

-- The loops, going on or returned from.
pub data Writing : Type 0 where
  going : Seeds → Writing
  halted : Stop → Seeds → Writing

-- `sprintf` into a `char[4096]`, then `fwrite`
unfoldable pub write_line : Bytes → Seeds → Writing
write_line line s =
    if leb 4096 (length line)
    then halted overruns s
    else going (record s { lines = s.lines ++ line ∷ []; page_counter = suc s.page_counter })

module _ (snapshot task_id : Bytes) (usable : Bytes → Bool) where
  -- the body of the inner loop
  unfoldable pub write_one : Engine → Bytes → Seeds → Writing
  write_one engine query s = elim (put_query engine.url (url_encode query [])) [
    | none ↦ halted throws s
    | some eurl ↦
        let snap = snap_dir snapshot task_id engine.eid in
        let updated = update (reset s.md5) query in
        if usable snap
        then (let (m, text) = to_string updated in
            write_line
              (seed_text eurl (snap ++ (codes "/" ++ (text ++ codes ".html"))) query ++ codes "\n")
              (record s { md5 = m }))
        else halted unusable (record s { md5 = updated })
  ]

  -- the loop over the engines
  unfoldable pub write_engines : List Engine → Bytes → Writing → Writing
  write_engines engines query (halted stop s) = halted stop s
  write_engines [] query (going s) = going s
  write_engines (e ∷ engines) query (going s) = write_engines engines query (write_one e query s)

  -- the loop over the queries of a page
  unfoldable pub write_queries : List Engine → List Bytes → Writing → Writing
  write_queries engines queries (halted stop s) = halted stop s
  write_queries engines [] (going s) = going s
  write_queries engines (q ∷ queries) (going s) =
      write_queries engines queries (write_engines engines q (going s))

  -- `do { ... } while(ret.size() > 0)`, on fuel; `none` has run out of it
  unfoldable pub write_pages : List Engine → (ℕ → List Bytes) → ℕ → ℕ → Writing → Option Writing
  write_pages engines get_page zero page w = none
  write_pages engines get_page (suc f) page (halted stop s) = some (halted stop s)
  write_pages engines get_page (suc f) page (going s) =
      let ret = get_page page in
      let written = write_queries engines ret (going s) in
      let rest = write_pages engines get_page f (suc page) written in
      if leb (length ret) 0 then some written else rest
