-- ===== src/UrlCodec.antt =====
-- down_parse_client/utils/Utils.cpp: hexadecimal digits and URL encoding of `std::string`.
pub mod RoundTrip
mod Tests
use studytest.Base.{
  ℕ, ◌+◌, ◌-◌, ◌*◌, ◌/◌, ◌%◌, ◌^◌, List, [], ◌∷◌, ◌++◌, Bool, true, false, ◌&&◌, ◌||◌, Option, some,
  none, Bytes, leb, ltb, ◌==◌, if◌then◌else◌, codes, arith,
}

-- `isalnum` of the C locale
pub is_alnum : ℕ → Bool
is_alnum c =
    (leb b'0' c && leb c b'9') || ((leb b'A' c && leb c b'Z') || (leb b'a' c && leb c b'z'))

-- The additions are of an `unsigned char`.
unfoldable pub to_hex : ℕ → ℕ
to_hex x = if ltb 9 x then (x + 55) % 256 else (x + 48) % 256

-- `none` is the failing `assert(0)`.
pub from_hex : ℕ → Option ℕ
from_hex x =
    if leb b'A' x && leb x b'Z'
    then some (x - b'A' + 10)
    else if leb b'a' x && leb x b'z'
    then some (x - b'a' + 10)
    else if leb b'0' x && leb x b'9'
    then some (x - b'0')
    else none

-- one round of the loop of `UrlEncode`: what it appends for a character
pub encode_byte : ℕ → Bytes
unfolding is_alnum to_hex
encode_byte c =
    if is_alnum c || (c == b'-' || (c == b'_' || (c == b'.' || c == b'~')))
    then c ∷ []
    else if c == b' '
    then b'+' ∷ []
    else b'%' ∷ (to_hex (c / 2 ^ 4) ∷ (to_hex (c % 16) ∷ []))

-- `UrlEncode(str, strTemp)`, which appends to `strTemp`.
unfoldable pub url_encode : Bytes → Bytes → Bytes
unfolding encode_byte
url_encode [] out = out
url_encode (c ∷ s) out = url_encode s (out ++ encode_byte c)

-- the two digits behind a `%`, as the character they spell
pub spelled : ℕ → ℕ → Option ℕ
unfolding from_hex
spelled h l = elim (from_hex h) [
  | none ↦ none
  | some high ↦ elim (from_hex l) [ none ↦ none | some low ↦ some ((high * 16 + low) % 256) ]
]

-- `UrlDecode(str, strTemp)`: `none` is a failing `assert`. The digits behind a `%` are the next two
-- characters; with fewer than two the `assert` on the index fails.
unfoldable pub url_decode : Bytes → Bytes → Option Bytes
unfolding spelled
url_decode [] out = some out
url_decode (c ∷ []) out =
    if c == b'%' then none else some (out ++ (if c == b'+' then b' ' else c) ∷ [])
url_decode (c ∷ (h ∷ [])) out =
    let rest = url_decode (h ∷ []) (out ++ (if c == b'+' then b' ' else c) ∷ []) in
    if c == b'%' then none else rest
url_decode (c ∷ (h ∷ (l ∷ s))) out =
    let rest = url_decode (h ∷ (l ∷ s)) (out ++ (if c == b'+' then b' ' else c) ∷ []) in
    let escaped : Option Bytes = elim (spelled h l) [
      | none ↦ none
      | some b ↦ url_decode s (out ++ b ∷ [])
    ] in
    if c == b'%' then escaped else rest
