-- ===== src/UrlCodec/RoundTrip.antt =====
-- `UrlDecode` undoes `UrlEncode`.
use studytest.Base.{
  ℕ, ◌*◌, ◌/◌, ◌%◌, ◌<◌, ◌≡◌, ◌↔◌, refl, sym, ◌∙◌, ap, [], ◌∷◌, ◌++◌, append_assoc, append-nil,
  Bool, true, false, ◌||◌, some, none, arith, Bytes, IsByte, All, All-append, length, length-append,
  ◌≤◌, Bool-cases, inl, inr, ◌==◌, length, ◌≤◌,
}
use studytest.UrlCodec.{is_alnum, to_hex, from_hex, encode_byte, url_encode, spelled, url_decode}

from_hex-to_hex : (x : ℕ) → x < 16 → from_hex (to_hex x) ≡ some x
unfolding from_hex to_hex
from_hex-to_hex x h = ground arith

spelled-to_hex : (c : ℕ) → c < 256 → spelled (to_hex (c / 16)) (to_hex (c % 16)) ≡ some c
unfolding spelled
spelled-to_hex c h =
    ground (arith, from_hex-to_hex (c / 16) (omega arith), from_hex-to_hex (c % 16) (omega arith))

abbrev pub plain : ℕ → Bool
plain c = is_alnum c || (c == b'-' || (c == b'_' || (c == b'.' || c == b'~')))

-- A character other than `%` and `+` stands for itself, whatever follows.
decode_plain :
    (c : ℕ) (s out : Bytes)
    → (c == b'%') ≡ false
    → (c == b'+') ≡ false
    → url_decode (c ∷ s) out ≡ url_decode s (out ++ c ∷ [])
unfolding url_decode
decode_plain c [] out h k = rw (h, k)
decode_plain c (x ∷ []) out h k = rw (h, k)
decode_plain c (x ∷ (y ∷ s)) out h k = rw (h, k)

decode_plus : (s out : Bytes) → url_decode (b'+' ∷ s) out ≡ url_decode s (out ++ b' ' ∷ [])
unfolding url_decode
decode_plus [] out = refl
decode_plus (x ∷ []) out = refl
decode_plus (x ∷ (y ∷ s)) out = refl

decode_escape :
    (h l b : ℕ) (s out : Bytes)
    → spelled h l ≡ some b
    → url_decode (b'%' ∷ (h ∷ (l ∷ s))) out ≡ url_decode s (out ++ b ∷ [])
unfolding url_decode
decode_escape h l b s out e = rw e

plain-ne : (c : ℕ) → plain c ≡ true → ((c == b'%') ≡ false) × ((c == b'+') ≡ false)
unfolding is_alnum
plain-ne c h = ground arith

decode-encode_byte :
    (c : ℕ) (s out : Bytes)
    → c < 256
    → url_decode (encode_byte c ++ s) out ≡ url_decode s (out ++ c ∷ [])
unfolding encode_byte
decode-encode_byte c s out h = elim (Bool-cases (plain c)) [
  | inl p ↦ let (e, k) = plain-ne c p in rw p (decode_plain c s out e k)
  | inr p ↦ elim (Bool-cases (c == b' ')) [
    | inl space ↦
        let z : c ≡ b' ' = ground arith in
        rw (p, space) (decode_plus s out ∙ ap (λ b. url_decode s (out ++ b ∷ [])) (sym z))
    | inr other ↦ rw (p, other) (decode_escape _ _ c s out (spelled-to_hex c h))
  ]
]

-- every character encoded, in order
abbrev pub encoded : Bytes → Bytes
encoded [] = []
encoded (c ∷ s) = encode_byte c ++ encoded s

url_encode-encoded : (s out : Bytes) → url_encode s out ≡ out ++ encoded s
unfolding url_encode
url_encode-encoded [] out = sym (append-nil out)
url_encode-encoded (c ∷ s) out =
    url_encode-encoded s (out ++ encode_byte c) ∙ append_assoc out (encode_byte c) (encoded s)

decode-encoded : (s out : Bytes) → All IsByte s → url_decode (encoded s) out ≡ some (out ++ s)
decode-encoded [] out h = unfold url_decode in ap some (sym (append-nil out))
decode-encoded (c ∷ s) out (hc, hs) =
    decode-encode_byte c (encoded s) out hc
    ∙ decode-encoded s (out ++ c ∷ []) hs
    ∙ ap some (append_assoc out (c ∷ []) s)

-- `UrlDecode` gives back what `UrlEncode` was given, whatever bytes it holds.
pub url_decode-url_encode : (s : Bytes) → All IsByte s → url_decode (url_encode s []) [] ≡ some s
url_decode-url_encode s h = rw url_encode-encoded (decode-encoded s [] h)

-- what may stand in an encoded text
abbrev pub IsUrlChar : ℕ → Type 0
IsUrlChar c = (plain c || (c == b'+' || c == b'%')) ≡ true

to_hex-is_alnum : (x : ℕ) → x < 16 → is_alnum (to_hex x) ≡ true
unfolding is_alnum to_hex
to_hex-is_alnum x h = ground arith

encode_byte-IsUrlChar : (c : ℕ) → c < 256 → All IsUrlChar (encode_byte c)
unfolding encode_byte
encode_byte-IsUrlChar c h = elim (Bool-cases (plain c)) [
  | inl p ↦ rw p (rw p, tt)
  | inr p ↦ elim (Bool-cases (c == b' ')) [
    | inl space ↦ rw (p, space) (refl, tt)
    | inr other ↦
        rw (p, other)
          (
            refl,
            (
              rw (to_hex-is_alnum (c / 16) (omega arith)),
              (rw (to_hex-is_alnum (c % 16) (omega arith)), tt),
            ),
          )
  ]
]

length-encode_byte : (c : ℕ) → length (encode_byte c) ≤ 3
unfolding encode_byte
length-encode_byte c = elim (Bool-cases (plain c)) [
  | inl p ↦ rw p (omega arith)
  | inr p ↦ elim (Bool-cases (c == b' ')) [
    | inl space ↦ rw (p, space) (omega arith)
    | inr other ↦ rw (p, other) (omega arith)
  ]
]

encoded-IsUrlChar :
    (s : Bytes) → All IsByte s → All IsUrlChar (encoded s) × (length (encoded s) ≤ 3 * length s)
encoded-IsUrlChar [] h = (tt, omega arith)
encoded-IsUrlChar (c ∷ s) (hc, hs) =
    let (safe, len) = encoded-IsUrlChar s hs in
    (
      All-append IsUrlChar (encode_byte c) (encoded s) (encode_byte-IsUrlChar c hc) safe,
      omega (arith, length-append (encode_byte c) (encoded s), length-encode_byte c),
    )

-- `UrlEncode` writes letters, digits, `-`, `_`, `.`, `~`, `+` and `%` only, and at most three
-- characters for each one.
url_encode-IsUrlChar :
    (s : Bytes)
    → All IsByte s
    → All IsUrlChar (url_encode s []) × (length (url_encode s []) ≤ 3 * length s)
url_encode-IsUrlChar s h = rw url_encode-encoded (encoded-IsUrlChar s h)

-- `FromHex` fails on a character exactly when it is neither a letter nor a digit: the letters from G
-- on are taken for digits too.
from_hex-none_iff : (x : ℕ) → (from_hex x ≡ none) ↔ (is_alnum x ≡ false)
unfolding from_hex is_alnum
from_hex-none_iff x = ground arith
