-- ===== src/UrlEncoder/Decode/Steps.antt =====
-- The rounds of the decoder at one byte, and at an escape.
use Prim.Native.Nat.{bit_or}
use studytest.Base.{
  append-nil, ℕ, zero, suc, ◌+◌, ◌-◌, ◌*◌, ◌/◌, ◌%◌, ◌<◌, ◌≡◌, refl, sym, ap, ◌∙◌, [], ◌∷◌, ◌++◌,
  Option, some, none, Bool, true, false, ◌&&◌, ◌||◌, not, arith, Bytes, length, leb, ◌==◌,
  if◌then◌else◌, ==_iff,
}
use studytest.UrlEncoder.Table.{escaped}
use studytest.UrlEncoder.Decode.{
  common, escape1, escape2, Decoder, on_common, on_escape1, low_digit, on_escape2,
}
use studytest.UrlEncoder.Decode.Spec.{escape, opens, plain}

each_under : (ℕ → Bool) → ℕ → Bool
each_under test zero = true
each_under test (suc k) = each_under test k && test k

each_under-at : (test : ℕ → Bool) {x : ℕ} (k : ℕ) → x < k → each_under test k ≡ true → test x ≡ true
unfolding each_under
each_under-at test {x} zero below all = absurd (omega arith)
each_under-at test {x} (suc k) below all = ground (arith, each_under-at test {x = x} k)

or_table : each_under (λ b. bit_or (b / 16 * 16) (b % 16) == b) 256 ≡ true
unfolding each_under
or_table = refl

-- The two halves of a byte are joined by `|`.
bit_or-halves : (x y : ℕ) → x < 16 → y < 16 → bit_or (x * 16) y ≡ x * 16 + y
bit_or-halves x y hx hy =
    let b = x * 16 + y in
    let e : b / 16 * 16 ≡ x * 16 = omega arith in
    let e' : b % 16 ≡ y = omega arith in
    ap (λ t. bit_or t y) (sym e)
    ∙ ap (bit_or (b / 16 * 16)) (sym e')
    ∙ (==_iff _ b).0 (each_under-at _ 256 (omega arith) or_table)

-- a decoder in DS_COMMON
abbrev pub at_common : Bytes → Bytes → Bytes → ℕ → Bool → Bool → Decoder
at_common passed ahead out de nonesc argu = record {
  state = common;
  passed = passed;
  ahead = ahead;
  out = out;
  deescape = de;
  nonescback = nonesc;
  ifargu = argu;
}

abbrev pub at_escape1 : Bytes → Bytes → Bytes → ℕ → Bool → Decoder
at_escape1 passed ahead out de argu = record {
  state = escape1;
  passed = passed;
  ahead = ahead;
  out = out;
  deescape = de;
  nonescback = false;
  ifargu = argu;
}

abbrev pub at_escape2 : Bytes → Bytes → Bytes → ℕ → Bool → Decoder
at_escape2 passed ahead out de argu = record {
  state = escape2;
  passed = passed;
  ahead = ahead;
  out = out;
  deescape = de;
  nonescback = false;
  ifargu = argu;
}

-- the first digit of an escape, as DS_ESCAPE1 tests it
pub high_digit : ℕ → ℕ → Option ℕ
high_digit h l =
    if leb b'A' h && leb h b'F'
    then some (h - b'A' + 10)
    else if leb b'a' h && leb h b'f'
    then some (h - b'a' + 10)
    else if leb b'3' h && leb h b'9'
    then some (h - b'0')
    else if h == b'2' && not (l == b'0')
    then some (h - b'0')
    else none

pub escape-digits :
    (h l : ℕ)
    → escape h l ≡ elim (high_digit h l) [
      | none ↦ none
      | some x ↦ elim (low_digit l) [ none ↦ none | some y ↦ some (x * 16 + y) ]
    ]
unfolding escape high_digit low_digit
escape-digits h l = ground arith

pub high_digit-lt : (h l x : ℕ) → high_digit h l ≡ some x → x < 16
unfolding high_digit
high_digit-lt h l x e = ground arith

low_digit-lt : (l y : ℕ) → low_digit l ≡ some y → y < 16
unfolding low_digit
low_digit-lt l y e = ground arith

-- DS_COMMON at a `%` with two bytes behind it opens an escape.
pub common_percent :
    (passed out : Bytes) (h l : ℕ) (r : Bytes) (de : ℕ) (argu : Bool)
    → on_common (at_common passed (b'%' ∷ (h ∷ (l ∷ r))) out de false argu) b'%' (h ∷ (l ∷ r))
      ≡ at_escape1 (b'%' ∷ passed) (h ∷ (l ∷ r)) out de argu
unfolding on_common
common_percent passed out h l r de argu = ground arith

-- DS_COMMON at a byte that is no `%`
pub common_plain :
    (passed out : Bytes) (c : ℕ) (s : Bytes) (de : ℕ) (argu : Bool)
    → (c == b'%') ≡ false
    → on_common (at_common passed (c ∷ s) out de false argu) c s
      ≡ at_common (c ∷ passed) s (out ++ plain argu c) de false (if opens c then true else argu)
unfolding on_common plain escaped
common_plain passed out c s de argu h = ground (arith, append-nil out)

-- DS_COMMON at a `%` that stands for itself: walked back to, or with fewer than two bytes behind it
pub common_percent_back :
    (passed out : Bytes) (s : Bytes) (de : ℕ) (nonesc argu : Bool)
    → (nonesc || leb (length (b'%' ∷ s)) 2) ≡ true
    → on_common (at_common passed (b'%' ∷ s) out de nonesc argu) b'%' s
      ≡ at_common (b'%' ∷ passed) s (out ++ b'%' ∷ []) de false argu
unfolding on_common
common_percent_back passed out s de nonesc argu h = ground arith

pub escape1_high :
    (passed out : Bytes) (h l : ℕ) (r : Bytes) (de x : ℕ) (argu : Bool)
    → high_digit h l ≡ some x
    → on_escape1 (at_escape1 passed (h ∷ (l ∷ r)) out de argu) h (l ∷ r)
      ≡ at_escape2 (h ∷ passed) (l ∷ r) out (x * 16) argu
unfolding on_escape1 high_digit
escape1_high passed out h l r de x argu e = ground arith

pub escape1_back :
    (c : ℕ) (passed out : Bytes) (h l : ℕ) (r : Bytes) (de : ℕ) (argu : Bool)
    → high_digit h l ≡ none
    → on_escape1 (at_escape1 (c ∷ passed) (h ∷ (l ∷ r)) out de argu) h (l ∷ r)
      ≡ at_common passed (c ∷ (h ∷ (l ∷ r))) out de true argu
unfolding on_escape1 high_digit
escape1_back c passed out h l r de argu e = ground arith

pub escape2_low :
    (passed out : Bytes) (l : ℕ) (r : Bytes) (x y : ℕ) (argu : Bool)
    → x < 16
    → low_digit l ≡ some y
    → on_escape2 (at_escape2 passed (l ∷ r) out (x * 16) argu) l r
      ≡ at_common (l ∷ passed) r (out ++ (x * 16 + y) ∷ []) (x * 16 + y) false argu
unfolding on_escape2
escape2_low passed out l r x y argu hx e =
    rw (e, on_escape2) (ground (arith, bit_or-halves x y hx (low_digit-lt l y e)))

pub escape2_back :
    (c h : ℕ) (passed out : Bytes) (l : ℕ) (r : Bytes) (de : ℕ) (argu : Bool)
    → low_digit l ≡ none
    → on_escape2 (at_escape2 (h ∷ (c ∷ passed)) (l ∷ r) out de argu) l r
      ≡ at_common passed (c ∷ (h ∷ (l ∷ r))) out de true argu
unfolding on_escape2
escape2_back c h passed out l r de argu e = rw (e, on_escape2)
