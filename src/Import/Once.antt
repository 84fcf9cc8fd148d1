-- ===== src/Import/Once.antt =====
-- No item goes into the database twice.
use studytest.Base.{
  ℕ, ◌+◌, ◌≤◌, ◌≡◌, refl, sym, ap, ◌∙◌, List, [], ◌∷◌, ◌++◌, Option, some, none, Bool, true, false,
  Bytes, if◌then◌else◌, same, same_iff, Bool-cases, Option-cases, inl, inr, arith,
}
use studytest.Config.Item.{Item, kept, found, get_engine_item}
use studytest.DownFeed.{SeedLine, skipped, stray, page, seed_line}
use studytest.Sql.{Statement}
use studytest.Import.{
  Row, Root, Outside, Imports, in_db, is_good, insert_statement, store_rows, store_root, store_file,
  store_item, import_new, import_line, import_lines,
}

-- how often an item has been inserted
abbrev pub times : Bytes → List (Bytes × Statement) → ℕ
times item_file [] = 0
times item_file ((i, st) ∷ more) = (if same i item_file then 1 else 0) + times item_file more

times-append :
    (f : Bytes) (xs ys : List (Bytes × Statement)) → times f (xs ++ ys) ≡ times f xs + times f ys
times-append f [] ys = omega arith
times-append f ((i, st) ∷ xs) ys = omega (arith, times-append f xs ys)

abbrev one_if : Bool → ℕ
one_if b = if b then 1 else 0

-- What a step does: the set grows, an item that is in it is not inserted, and every item that is inserted is
-- put into it.
pub record Keeps (s t : Imports) : Type 0 where
  pub grows : (f : Bytes) → in_db s.in_db_item f ≡ true → in_db t.in_db_item f ≡ true
  pub not_again : (f : Bytes) → in_db s.in_db_item f ≡ true → times f t.inserts ≡ times f s.inserts
  pub once : (f : Bytes) → times f t.inserts ≤ times f s.inserts + one_if (in_db t.in_db_item f)

Keeps-refl : (s : Imports) → Keeps s s
Keeps-refl s = record { grows = λ f h. h; not_again = λ f h. refl; once = λ f. omega arith }

pub Keeps-trans : {s t u : Imports} → Keeps s t → Keeps t u → Keeps s u
Keeps-trans {s} {t} {u} a b = record {
  grows = λ f h. b.grows f (a.grows f h);
  not_again = λ f h. b.not_again f (a.grows f h) ∙ a.not_again f h;
  once = λ f. go f (in_db t.in_db_item f) refl;
}
  where
    go :
        (f : Bytes) (k : Bool)
        → in_db t.in_db_item f ≡ k
        → times f u.inserts ≤ times f s.inserts + one_if (in_db u.in_db_item f)
    go f true e = omega (arith, a.once f, b.not_again f e, ap one_if e, ap one_if (b.grows f e))
    go f false e = omega (arith, a.once f, b.once f, ap one_if e)

-- What becomes of a result that may be missing.
abbrev pub AlsoKeeps : Imports → Option Imports → Type 0
AlsoKeeps s none = Unit
AlsoKeeps s (some t) = Keeps s t

pub in_db-here : (f : Bytes) (is : List Bytes) → in_db (f ∷ is) f ≡ true
unfolding in_db
in_db-here f is = rw ((same_iff f f).1 refl) refl

pub in_db-there : (i f : Bytes) (is : List Bytes) → in_db is f ≡ true → in_db (i ∷ is) f ≡ true
unfolding in_db
in_db-there i f is h = elim (Bool-cases (same i f)) [ inl e ↦ rw e refl | inr n ↦ rw n h ]

in_db-other :
    (i f : Bytes) (is : List Bytes) → same i f ≡ true → in_db is f ≡ true → in_db is i ≡ true
in_db-other i f is e h = rw (← (same_iff i f).0 e) at h

inserted-Keeps :
    (item_file : Bytes) (st : Statement) (s : Imports) (deletes : List (Bytes × Statement))
    → in_db s.in_db_item item_file ≡ false
    → Keeps s (record s {
      in_db_item = item_file ∷ s.in_db_item;
      deletes = deletes;
      inserts = s.inserts ++ (item_file, st) ∷ [];
    })
inserted-Keeps item_file st s deletes new = record {
  grows = λ f h. in_db-there item_file f s.in_db_item h;
  not_again = λ f h. elim (Bool-cases (same item_file f)) [
    | inl e ↦ let k = in_db-other item_file f s.in_db_item e h in cc
    | inr n ↦ omega (arith, times-append f s.inserts ((item_file, st) ∷ []), ap one_if n)
  ];
  once = λ f. elim (Bool-cases (same item_file f)) [
    | inl e ↦
        let there : in_db (item_file ∷ s.in_db_item) f ≡ true =
          ap (in_db (item_file ∷ s.in_db_item)) (sym ((same_iff item_file f).0 e))
          ∙ in_db-here item_file s.in_db_item in
        omega (arith, times-append f s.inserts ((item_file, st) ∷ []), ap one_if e, ap one_if there)
    | inr n ↦ omega (arith, times-append f s.inserts ((item_file, st) ∷ []), ap one_if n)
  ];
}

module _ (task_dir task_id : Bytes) (out : Outside) where
  rows-Keeps :
      (engine_id item_file query : Bytes) (rows : List Row) (s : Imports)
      → in_db s.in_db_item item_file ≡ false
      → AlsoKeeps s (store_rows task_id engine_id item_file query rows s)
  unfolding store_rows
  rows-Keeps engine_id item_file query [] s new = record {
    grows = λ f h. h;
    not_again = λ f h. refl;
    once = λ f. omega arith;
  }
  rows-Keeps engine_id item_file query (r ∷ rows) s new =
      elim (Option-cases (insert_statement task_id engine_id query (r ∷ rows))) [
        | inl e ↦ rw (e, store_rows) tt
        | inr (st, e) ↦ rw (e, store_rows) (inserted-Keeps item_file st s _ new)
      ]

  root-Keeps :
      (engine_id item_file query : Bytes) (o : Option Root) (s : Imports)
      → in_db s.in_db_item item_file ≡ false
      → AlsoKeeps s (store_root task_dir task_id out engine_id item_file query o s)
  unfolding store_root
  root-Keeps engine_id item_file query none s new = Keeps-refl s
  root-Keeps engine_id item_file query (some root) s new = elim (Bool-cases (is_good root)) [
    | inr bad ↦ rw bad (Keeps-refl s)
    | inl good ↦ elim (Option-cases root.rows) [
      | inl e ↦ rw (good, e, store_root) (Keeps-refl s)
      | inr (rows, e) ↦ rw (good, e, store_root) (rows-Keeps engine_id item_file query rows s new)
    ]
  ]

  file-Keeps :
      (engine_id item_file query : Bytes) (o : Option (List Bytes)) (s : Imports)
      → in_db s.in_db_item item_file ≡ false
      → AlsoKeeps s (store_file task_dir task_id out engine_id item_file query o s)
  file-Keeps engine_id item_file query none s new = Keeps-refl s
  file-Keeps engine_id item_file query (some lines) s new =
      root-Keeps engine_id item_file query _ s new

  item-Keeps :
      (engine_id item_file query : Bytes) (s : Imports)
      → in_db s.in_db_item item_file ≡ false
      → AlsoKeeps s (store_item task_dir task_id out engine_id item_file query s)
  unfolding store_item
  item-Keeps engine_id item_file query s new = elim (Bool-cases (out.readable item_file)) [
    | inl there ↦ rw there (file-Keeps engine_id item_file query (out.file item_file) s new)
    | inr absent ↦ rw absent (Keeps-refl s)
  ]

  new-Keeps :
      (query : Bytes) (item : Item) (s : Imports)
      → AlsoKeeps s (import_new task_dir task_id out query item s)
  unfolding import_new
  new-Keeps query kept s = elim (Bool-cases (in_db s.in_db_item [])) [
    | inl there ↦ rw there (Keeps-refl s)
    | inr new ↦ rw new (item-Keeps [] [] query s new)
  ]
  new-Keeps query Item.stray s = tt
  new-Keeps query (found engine_id item_file) s = elim (Bool-cases (in_db s.in_db_item item_file)) [
    | inl there ↦ rw there (Keeps-refl s)
    | inr new ↦ rw new (item-Keeps engine_id item_file query s new)
  ]

  line-Keeps : (l : SeedLine) (s : Imports) → AlsoKeeps s (import_line task_dir task_id out l s)
  line-Keeps skipped s = Keeps-refl s
  line-Keeps stray s = tt
  line-Keeps (page line local_file) s = new-Keeps _ (get_engine_item task_dir local_file) s

  pub lines-Keeps :
      (lines : List Bytes) (s : Imports) → AlsoKeeps s (import_lines task_dir task_id out lines s)
  unfolding import_lines
  lines-Keeps [] s = Keeps-refl s
  lines-Keeps (line ∷ lines) s =
      go (import_line task_dir task_id out (seed_line line) s) (line-Keeps (seed_line line) s)
        (lines-Keeps lines)
    where
      go :
          (o : Option Imports)
          → AlsoKeeps s o
          → ((t : Imports) → AlsoKeeps t (import_lines task_dir task_id out lines t))
          → AlsoKeeps s
              (elim o [ none ↦ none | some t ↦ import_lines task_dir task_id out lines t ])
      go none h more = tt
      go (some t) h more = trans (import_lines task_dir task_id out lines t) h (more t)
        where
          trans : {t : Imports} (o : Option Imports) → Keeps s t → AlsoKeeps t o → AlsoKeeps s o
          trans none a b = tt
          trans (some u) a b = Keeps-trans a b
