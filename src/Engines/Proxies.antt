-- ===== src/Engines/Proxies.antt =====
-- Whom the loop over the engines sends for proxies, and to which parsers.
use native.Mathlib.Nat.{div-le_self}
use studytest.Base.{
  ℕ, suc, ◌/◌, ◌%◌, ◌^◌, ◌<◌, pos, ◌≡◌, refl, sym, ap, ◌∙◌, List, [], ◌∷◌, ◌++◌, append-nil, map,
  ◌≤◌, Option, some, none, Bool, true, false, ◌&&◌, Bytes, codes, ltb, leb, if◌then◌else◌, find,
  All, Bool-cases, Option-cases, inl, inr, arith,
}
use studytest.Base.Maps.Order.{IsSorted}
use studytest.Sql.{Fields}
use studytest.Sql.Listing.{number_text, int_text, as_int}
use studytest.Sql.Listing.Numbers.{number_text-none_iff}
use studytest.ParseFeed.{not_sogou, check_sogou_parser}
use studytest.Engines.{
  field, engine_name, Action, going, prepare_engines, only_sogou, atoi, as_uint32, at_most_100,
  no_proxy, asks, with_num, ask_num, update_proxy_list,
}
use studytest.Engines.Loop.{name_or, name_of, info_of, IsFine, actions_of, prepare_engines-going}

-- every engine of the list has `sogou` in its own name
abbrev pub all_named : List (Bytes × Fields) → Bool
all_named [] = true
all_named ((k, row) ∷ rows) =
    let rest = all_named rows in
    elim (find (field (codes "name") row) (codes "sogou")) [ none ↦ false | some p ↦ rest ]

abbrev found : Option ℕ → Bool
found none = false
found (some p) = true

-- The name that an engine gets holds `sogou` just if its own name does.
engine_name-found :
    (ename name : Bytes)
    → engine_name ename ≡ some name
    → found (find name (codes "sogou")) ≡ found (find ename (codes "sogou"))
unfolding engine_name
engine_name-found ename name e = elim (Option-cases (find ename (codes "sogou"))) [
  | inr (p, f) ↦
      let is : codes "sogou-no-ad" ≡ name = let known = rw (f, engine_name) at e in cc in
      rw f (ap (λ t. found (find t (codes "sogou"))) (sym is))
  | inl f ↦ elim (Option-cases (find ename (codes "baidu"))) [
    | inr (p, g) ↦
        let is : codes "baidu" ≡ name = let known = rw (f, g, engine_name) at e in cc in
        rw f (ap (λ t. found (find t (codes "sogou"))) (sym is))
    | inl g ↦ elim (Option-cases (find ename (codes "360"))) [
      | inr (p, h) ↦
          let is : codes "360so" ≡ name = let known = rw (f, g, h, engine_name) at e in cc in
          rw f (ap (λ t. found (find t (codes "sogou"))) (sym is))
      | inl h ↦ let never = rw (f, g, h, engine_name) at e in cc
    ]
  ]
]

if_found : (o : Option ℕ) (b : Bool) → elim o [ none ↦ false | some p ↦ b ] ≡ (found o && b)
if_found none b = refl
if_found (some p) b = refl

not_sogou-only_sogou :
    (engine_info : List (Bytes × Bytes)) → leb (not_sogou engine_info) 0 ≡ only_sogou engine_info
unfolding not_sogou only_sogou
not_sogou-only_sogou [] = refl
not_sogou-only_sogou ((eid, name) ∷ engine_info) = elim (Option-cases (find name (codes "sogou"))) [
  | inl e ↦ rw (e, not_sogou, only_sogou) (ground arith)
  | inr (p, e) ↦ rw (e, not_sogou, only_sogou) (not_sogou-only_sogou engine_info)
]

-- The parsers of sogou join the others just if every engine is one of sogou's.
check_sogou_parser-only_sogou :
    (engine_info : List (Bytes × Bytes)) (sogou_parse_hosts parse_hosts : List Bytes)
    → check_sogou_parser engine_info sogou_parse_hosts parse_hosts
      ≡ (if only_sogou engine_info then parse_hosts ++ sogou_parse_hosts else parse_hosts)
unfolding check_sogou_parser
check_sogou_parser-only_sogou engine_info [] parse_hosts =
    elim (Bool-cases (only_sogou engine_info)) [
      | inl e ↦ rw e (sym (append-nil parse_hosts))
      | inr e ↦ rw e refl
    ]
check_sogou_parser-only_sogou engine_info (h ∷ hosts) parse_hosts =
    rw (not_sogou-only_sogou engine_info) refl

-- the number of proxies to ask for
abbrev pub proxies_for : ℕ → ℕ → ℕ
proxies_for page_counter n = if ltb 100 (page_counter / n) then 100 else page_counter / n

num_fits : (q : ℕ) → (if ltb 100 q then 100 else q) ≤ 100
num_fits q = ground arith

-- a number of up to 100 has a text
short_text : (q : ℕ) → q ≤ 100 → (text : Bytes) × (number_text q ≡ some text)
short_text q h = elim (Option-cases (number_text q)) [
  | inl e ↦ let never : 1000000000 ≤ q = (number_text-none_iff q).0 e in absurd (omega arith)
  | inr there ↦ there
]

small_int : (q : ℕ) → q < 2 ^ 31 → as_int q ≡ pos q
small_int q h =
    let small : q % 2 ^ 32 ≡ q = omega arith in
    let less : ltb q (2 ^ 31) ≡ true = ground arith in rw (small, less)

ask_num-asks :
    (proxy_api : Bytes) (page_counter n : ℕ) (text : Bytes)
    → page_counter < 2 ^ 31
    → number_text (proxies_for page_counter (suc n)) ≡ some text
    → ask_num proxy_api page_counter (suc n) ≡ asks (proxy_api ++ (codes "&num=" ++ text))
unfolding ask_num int_text
ask_num-asks proxy_api page_counter n text small e =
    let same_counter : page_counter % 2 ^ 32 ≡ page_counter = omega arith in
    let q = div-le_self page_counter (suc n) in
    ap (λ p. with_num proxy_api (int_text (at_most_100 (as_int (p / suc n))))) same_counter
    ∙ ap (λ i. with_num proxy_api (int_text (at_most_100 i)))
        (small_int (page_counter / suc n) (omega arith))
    ∙ ap (with_num proxy_api) e

module _ (task_dir task_id : Bytes) (is_retry : ℕ) (writable makes : Bytes → Bool) where
  only_sogou-all_named :
      (rows : List (Bytes × Fields))
      → All (IsFine task_dir task_id is_retry writable makes) rows
      → only_sogou (map info_of rows) ≡ all_named rows
  unfolding only_sogou
  only_sogou-all_named [] f = refl
  only_sogou-all_named ((k, row) ∷ rows) (fine, f) =
      let named : name_of row ≡ fine.name = ap name_or fine.known in
      let ename = field (codes "name") row in
      let here : found (find (name_of row) (codes "sogou")) ≡ found (find ename (codes "sogou")) =
        ap (λ t. found (find t (codes "sogou"))) named
        ∙ engine_name-found ename fine.name fine.known in
      if_found (find (name_of row) (codes "sogou")) (only_sogou (map info_of rows))
      ∙ ap (λ t. t && only_sogou (map info_of rows)) here
      ∙ ap (λ t. found (find ename (codes "sogou")) && t) (only_sogou-all_named rows f)
      ∙ sym (if_found (find ename (codes "sogou")) (all_named rows))

  -- Behind the loop over a list of engines that are all fine: if each has `sogou` in its name, no proxy is asked
  -- for and the parsers of sogou join the others; else the parsers stay as they are, and one proxy is asked for
  -- each `page_num_per_proxy` pages of the seed file, up to 100. The setting `page_num_per_proxy` is above 0, and
  -- it and the number of pages are below 2 ^ 31.
  pub update_proxy_list-check_sogou_parser :
      (rows : List (Bytes × Fields)) (done : List Action) (proxy_api : Bytes) (page_counter n : ℕ)
      (page_num_per_proxy : Bytes) (sogou_parse_hosts parse_hosts : List Bytes)
      → All (IsFine task_dir task_id is_retry writable makes) rows
      → IsSorted rows
      → atoi page_num_per_proxy ≡ (false, suc n)
      → suc n < 2 ^ 31
      → page_counter < 2 ^ 31
      → (engine_info : List (Bytes × Bytes)) × (made : List Action) × (text : Bytes)
        × (prepare_engines task_dir task_id is_retry writable makes rows (going [] done)
            ≡ going engine_info made)
        × (check_sogou_parser engine_info sogou_parse_hosts parse_hosts
            ≡ (if all_named rows then parse_hosts ++ sogou_parse_hosts else parse_hosts))
        × (number_text (proxies_for page_counter (suc n)) ≡ some text)
        × (update_proxy_list proxy_api engine_info page_counter page_num_per_proxy
            ≡ (if all_named rows then no_proxy else asks (proxy_api ++ (codes "&num=" ++ text))))
  unfolding update_proxy_list
  update_proxy_list-check_sogou_parser rows done proxy_api page_counter n page_num_per_proxy
        sogou_parse_hosts parse_hosts f sorted per narrow few =
      let (text, e) =
        short_text (proxies_for page_counter (suc n)) (num_fits (page_counter / suc n)) in
      let all = only_sogou-all_named rows f in
      let whole : suc n % 2 ^ 32 ≡ suc n = omega arith in
      (
        map info_of rows,
        done ++ actions_of task_dir task_id is_retry writable makes rows,
        text,
        prepare_engines-going task_dir task_id is_retry writable makes rows done f sorted,
        check_sogou_parser-only_sogou (map info_of rows) sogou_parse_hosts parse_hosts
            ∙ ap (λ b. if b then parse_hosts ++ sogou_parse_hosts else parse_hosts) all,
        e,
        ap
              (λ b.
                if b
                then no_proxy
                else ask_num proxy_api page_counter (as_uint32 (atoi page_num_per_proxy)))
              all
            ∙ ap (λ t. if all_named rows then no_proxy else t)
                (ap (λ p. ask_num proxy_api page_counter (as_uint32 p)) per
                  ∙ ap (ask_num proxy_api page_counter) whole
                  ∙ ask_num-asks proxy_api page_counter n text few e),
      )
