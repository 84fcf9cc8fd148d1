-- ===== src/Engines.antt =====
-- down_parse_client/clientConfig.cpp: the loop of generateInfo over the engines of a task, and update_proxy_list;
-- with get_proxy_list of down_client/get_proxy_list.cpp, which it asks for proxies. What `access`, `mkdir` and
-- libcurl answer are parameters. What `system` returns is not looked at. A number that atoi reads is a sign and
-- its digits, cut to 32 bits where it is used; numbers beyond a long, for which C leaves atoi open, are left out.
pub mod Loop
pub mod Proxies
mod Tests
use studytest.Base.{
  ℕ, zero, suc, ◌+◌, ◌/◌, ◌%◌, ◌-◌, ◌^◌, List, [], ◌∷◌, ◌++◌, Option, some, none, Bool, true, false,
  ◌&&◌, ◌||◌, not, Bytes, codes, length, ltb, leb, ◌==◌, if◌then◌else◌, find, ℤ, pos, negsuc,
}
use studytest.Base.Maps.{get, put}
use studytest.Strings.{Outcome, leaves, strays, hangs, trim, explode}
use studytest.Config.{is_space, digits}
use studytest.Sql.{Fields}
use studytest.Sql.Listing.{int_text, as_int}

-- `row[key]`
unfoldable pub field : Bytes → Fields → Bytes
unfolding get
field key row = elim (get key row) [ none ↦ [] | some v ↦ v ]

-- the engine that a name stands for
unfoldable pub engine_name : Bytes → Option Bytes
engine_name ename = elim (find ename (codes "sogou")) [
  | some p ↦ some (codes "sogou-no-ad")
  | none ↦ elim (find ename (codes "baidu")) [
    | some p ↦ some (codes "baidu")
    | none ↦ elim (find ename (codes "360")) [ some p ↦ some (codes "360so") | none ↦ none ]
  ]
]

-- what is done to a directory: `rm -rf`, and `mkdir`
pub data Action : Type 0 where
  rm_rf mkdir : Bytes → Action

-- The loop, going on or returned from: the name is unknown, the path is longer than its buffer, or the
-- directory can not be made; with `engine_info` and what was done.
pub data Halt : Type 0 where
  unknown overruns unusable : Halt

pub data Preparing : Type 0 where
  going : List (Bytes × Bytes) → List Action → Preparing
  halted : Halt → List (Bytes × Bytes) → List Action → Preparing

module _ (task_dir task_id : Bytes) (is_retry : ℕ) (writable makes : Bytes → Bool) where
  abbrev pub task_tmp : Bytes → Bytes
  task_tmp eid = task_dir ++ (codes "/" ++ (task_id ++ (codes "_" ++ eid)))

  -- the directory of an engine, removed first if the task is tried anew
  abbrev pub dir_actions : Bytes → List Action
  dir_actions dir =
      (if 1 == is_retry then rm_rf dir ∷ [] else [])
      ++ (if writable dir then [] else mkdir dir ∷ [])

  -- behind the name
  unfoldable pub make_dir : Bytes → List (Bytes × Bytes) → List Action → Preparing
  make_dir dir engine_info done =
      if leb 255 (length dir)
      then halted overruns engine_info done
      else if writable dir || makes dir
      then going engine_info (done ++ dir_actions dir)
      else halted unusable engine_info (done ++ dir_actions dir)

  -- the body of the loop
  unfoldable pub prepare_engine : Fields → List (Bytes × Bytes) → List Action → Preparing
  unfolding make_dir engine_name field put
  prepare_engine row engine_info done = elim (engine_name (field (codes "name") row)) [
    | none ↦ halted unknown engine_info done
    | some name ↦
        let eid = field (codes "eid") row in make_dir (task_tmp eid) (put eid name engine_info) done
  ]

  -- the loop over `engine_list`
  unfoldable pub prepare_engines : List (Bytes × Fields) → Preparing → Preparing
  unfolding prepare_engine
  prepare_engines rows (halted why engine_info done) = halted why engine_info done
  prepare_engines [] (going engine_info done) = going engine_info done
  prepare_engines ((k, row) ∷ rows) (going engine_info done) =
      prepare_engines rows (prepare_engine row engine_info done)

-- the loop of update_proxy_list over the engines: `is_sogou_engine`
unfoldable pub only_sogou : List (Bytes × Bytes) → Bool
only_sogou [] = true
only_sogou ((eid, name) ∷ engine_info) =
    let rest = only_sogou engine_info in
    elim (find name (codes "sogou")) [ none ↦ false | some p ↦ rest ]

-- `atoi`: whether the number is below 0, and its digits
unfoldable pub atoi : Bytes → Bool × ℕ
atoi [] = (false, 0)
atoi (c ∷ s) =
    let rest = atoi s in
    if is_space c
    then rest
    else if c == b'-'
    then (true, digits s 0)
    else if c == b'+'
    then (false, digits s 0)
    else (false, digits (c ∷ s) 0)

-- the number that atoi has read, made unsigned by the division
abbrev pub as_uint32 : Bool × ℕ → ℕ
as_uint32 (false, n) = n % 2 ^ 32
as_uint32 (true, n) = (2 ^ 32 - n % 2 ^ 32) % 2 ^ 32

-- `(num > 100) ? 100 : num`
abbrev pub at_most_100 : ℤ → ℤ
at_most_100 (pos n) = pos (if ltb 100 n then 100 else n)
at_most_100 (negsuc n) = negsuc n

-- What update_proxy_list comes to: no proxy is asked for, a division by 0, a write behind a buffer, or the
-- request of an address.
pub data Asking : Type 0 where
  no_proxy : Asking
  divides_by_zero : Asking
  too_long : Asking
  asks : Bytes → Asking

-- `num` and the address that the constructor of `get_proxy_list` makes
abbrev pub with_num : Bytes → Option Bytes → Asking
with_num proxy_api none = too_long
with_num proxy_api (some text) = asks (proxy_api ++ (codes "&num=" ++ text))

-- `page_counter` is of 32 bits without a sign, `num` an int
unfoldable pub ask_num : Bytes → ℕ → ℕ → Asking
unfolding int_text
ask_num proxy_api page_counter zero = divides_by_zero
ask_num proxy_api page_counter (suc n) =
    with_num proxy_api (int_text (at_most_100 (as_int (page_counter % 2 ^ 32 / suc n))))

unfoldable pub update_proxy_list : Bytes → List (Bytes × Bytes) → ℕ → Bytes → Asking
unfolding ask_num only_sogou atoi
update_proxy_list proxy_api engine_info page_counter page_num_per_proxy =
    if only_sogou engine_info
    then no_proxy
    else ask_num proxy_api page_counter (as_uint32 (atoi page_num_per_proxy))

-- `request`: the handle, and the status and the text of the answer; `none` is a trimming that reads outside
-- the string
abbrev pub listed : List Bytes → Outcome → Option (ℤ × List Bytes)
listed ret (leaves text) = some (pos 0, explode text (codes "\r\n") ret)
listed ret strays = none
listed ret hangs = none

unfoldable pub request :
    Bool → (Bytes → Option (ℕ × Bytes)) → Bytes → List Bytes → Option (ℤ × List Bytes)
request handle answers url ret =
    if handle
    then (elim (answers url) [
      | none ↦ some (negsuc 3, ret)
      | some (status, text) ↦
          if status == 200 then listed ret (trim text (codes "\n\r\t ")) else some (negsuc 3, ret)
    ])
    else some (negsuc 0, ret)
