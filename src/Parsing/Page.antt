-- ===== src/Parsing/Page.antt =====
-- down_parse_client/parse_client/send_parse.cpp, do_send_parse: the loop that reads a page from its file
-- through a buffer, whose size is 40960 there. The buffer is not ended by a NUL of its own: `strlen` and
-- `append` go on behind it if it holds none.
use studytest.Base.{
  ℕ, zero, suc, ◌+◌, ◌-◌, ◌≤◌, ◌<◌, ◌≡◌, ◌≢◌, refl, ap, ◌∙◌, [], ◌∷◌, ◌++◌, append-nil, Option,
  none, some, Bool-cases, inl, inr, Bytes, ltb, if◌then◌else◌, length, take, drop, replicate, All,
  arith, lt→ltb, ltb→lt, not-ltb→le, Bool, true, false, ◌↔◌, length-take, length-drop,
}

-- What the loop comes to: the content, a read behind the buffer, or no end within the rounds.
pub data Read : Type 0 where
  content : Bytes → Read
  overreads : Read
  unfinished : Read

-- a text up to its NUL
unfoldable pub c_text : Bytes → Option Bytes
c_text [] = none
c_text (c ∷ s) =
    let rest = c_text s in
    elim c [ zero ↦ some [] | suc n ↦ elim rest [ none ↦ none | some t ↦ some (suc n ∷ t) ] ]

-- behind `append` the buffer is cleared; a round that finds no text goes on before that
unfoldable pub behind : ℕ → Bytes → Bytes → Bytes
behind size [] buffer = buffer
behind size (c ∷ text) buffer = replicate size 0

-- The loop, on fuel, over what is left of the file: a call of `fread` that comes to less than the size of
-- the buffer has seen the end of the file. Reads do not fail: behind one that does, `feof` stays false and the
-- loop of the source runs for ever.
unfoldable pub read_loop : ℕ → ℕ → Bytes → Bytes → Bytes → Read
unfolding c_text behind
read_loop size zero file buffer html_content = unfinished
read_loop size (suc f) file buffer html_content =
    let chunk = take size file in
    let buffer' = chunk ++ drop (length chunk) buffer in
    elim (c_text buffer') [
      | none ↦ overreads
      | some text ↦
          let rest =
            read_loop size f (drop size file) (behind size text buffer') (html_content ++ text) in
          if ltb (length file) size then content (html_content ++ text) else rest
    ]

unfoldable pub read_page : ℕ → Bytes → Read
unfolding read_loop
read_page size file = read_loop size (suc (length file)) file (replicate size 0) []

-- without a NUL
abbrev pub IsText : Bytes → Type 0
IsText = All (λ c. c ≢ 0)

c_text-nul : (s : Bytes) (k : ℕ) → IsText s → c_text (s ++ replicate (suc k) 0) ≡ some s
unfolding c_text
c_text-nul [] k h = refl
c_text-nul (zero ∷ s) k (hc, h) = absurd (hc refl)
c_text-nul (suc n ∷ s) k (hc, h) = rw (c_text-nul s k h)

c_text-none : (s : Bytes) → IsText s → c_text s ≡ none
unfolding c_text
c_text-none [] h = refl
c_text-none (zero ∷ s) (hc, h) = absurd (hc refl)
c_text-none (suc n ∷ s) (hc, h) = rw (c_text-none s h)

take_short : (n : ℕ) (s : Bytes) → length s ≤ n → take n s ≡ s
take_short n [] h = nil n
  where
    nil : (n : ℕ) → take {A = ℕ} n [] ≡ []
    nil zero = refl
    nil (suc n) = refl
take_short zero (c ∷ s) h = absurd (omega arith)
take_short (suc n) (c ∷ s) h = ap (◌∷◌ c) (take_short n s (omega arith))

take-IsText : (n : ℕ) (s : Bytes) → IsText s → IsText (take n s)
take-IsText zero s h = tt
take-IsText (suc n) [] h = tt
take-IsText (suc n) (c ∷ s) (hc, h) = (hc, take-IsText n s h)

drop-replicate : (n k m : ℕ) → m ≡ n + k → drop {A = ℕ} n (replicate m 0) ≡ replicate k 0
drop-replicate zero k m e = ap (λ t. replicate t 0) (omega (arith, e))
drop-replicate (suc n) k zero e = absurd (omega arith)
drop-replicate (suc n) k (suc m) e = drop-replicate n k m (omega (arith, e))

-- a file that leaves room for a NUL in the buffer
pub read_page_short :
    (size : ℕ) (file : Bytes)
    → IsText file
    → length file < size
    → read_page size file ≡ content file
unfolding read_page read_loop
read_page_short size file h short =
    let k = size - suc (length file) in
    let whole = take_short size file (omega arith) in
    let filled : c_text (take size file ++ drop (length (take size file)) (replicate size 0))
        ≡ some file =
      ap (λ t. c_text (t ++ drop (length t) (replicate size 0))) whole
      ∙ ap (λ t. c_text (file ++ t)) (drop-replicate (length file) (suc k) size (omega arith))
      ∙ c_text-nul file k h in
    rw (filled, read_loop) (rw (lt→ltb (length file) size short) refl)

-- a file that fills the buffer at once
read_page_long :
    (size : ℕ) (file : Bytes) → IsText file → size ≤ length file → read_page size file ≡ overreads
unfolding read_page read_loop
read_page_long size file h long =
    let chunk = take size file in
    let full : length chunk ≡ size = omega (arith, length-take size file) in
    let no_room : drop (length chunk) (replicate {A = ℕ} size 0) ≡ [] =
      ap (λ n. drop n (replicate {A = ℕ} size 0)) full ∙ drop-replicate size 0 size (omega arith) in
    let filled : c_text (chunk ++ drop (length chunk) (replicate size 0)) ≡ none =
      ap (λ t. c_text (chunk ++ t)) no_room
      ∙ ap c_text (append-nil chunk)
      ∙ c_text-none chunk (take-IsText size file h) in
    rw (filled, read_loop) refl

round_ends :
    (o : Option Bytes) (last : Bool) (html_content : Bytes) (rest : Bytes → Read)
    → (last ≡ false → (text : Bytes) → rest text ≢ unfinished)
    → (elim o [
      | none ↦ overreads
      | some text ↦ if last then content (html_content ++ text) else rest text
    ])
      ≢ unfinished
round_ends none last html_content rest more e = cc
round_ends (some text) true html_content rest more e = cc
round_ends (some text) false html_content rest more e = more refl text e

read_loop-ends :
    (size f : ℕ) (file buffer html_content : Bytes)
    → 0 < size
    → length file < f
    → read_loop size f file buffer html_content ≢ unfinished
unfolding read_loop
read_loop-ends size zero file buffer html_content hs hf = absurd (omega arith)
read_loop-ends size (suc f) file buffer html_content hs hf =
    let buffer' = take size file ++ drop (length (take size file)) buffer in
    round_ends (c_text buffer') (ltb (length file) size) html_content
      (λ text. read_loop size f (drop size file) (behind size text buffer') (html_content ++ text))
      (λ more text.
        read_loop-ends size f (drop size file) (behind size text buffer') (html_content ++ text) hs
          (omega (arith, hs, hf, length-drop size file, not-ltb→le (length file) size more)))

-- The loop that reads a page ends on any file whose reads do not fail. A file without a NUL is read as it is if
-- it is shorter than the buffer; one that is as long or longer makes the loop read behind the buffer.
pub read_page_lem :
    (size : ℕ) (file : Bytes)
    → 0 < size
    → (read_page size file ≢ unfinished)
      × (IsText file
          → ((length file < size) ↔ (read_page size file ≡ content file))
            × ((size ≤ length file) ↔ (read_page size file ≡ overreads)))
unfolding read_page
read_page_lem size file hs = (
  read_loop-ends size (suc (length file)) file (replicate size 0) [] hs (omega arith),
  λ h. elim (Bool-cases (ltb (length file) size)) [
    | inl short ↦
        let read = read_page_short size file h (ltb→lt (length file) size short) in
        let lt = ltb→lt (length file) size short in
        ((λ _. read, λ _. lt), (λ le. absurd (omega arith), λ e. cc))
    | inr long ↦
        let le = not-ltb→le (length file) size long in
        let read = read_page_long size file h le in
        ((λ lt. absurd (omega arith), λ e. cc), (λ _. read, λ _. le))
  ],
)
