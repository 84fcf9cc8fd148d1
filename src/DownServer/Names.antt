-- ===== src/DownServer/Names.antt =====
-- The names of the temporary files.
use studytest.Base.{
  ℕ, ◌+◌, ◌*◌, ◌/◌, ◌%◌, ◌<◌, ◌≡◌, refl, sym, ap, ◌∙◌, List, [], ◌∷◌, ◌++◌, Bytes, codes, arith,
  All, length, drop, IsByte, append_assoc, false, ◌-◌, ltb, if◌then◌else◌,
}
use studytest.UrlCodec.{to_hex}
use studytest.DownServer.{uuid_text, tmp_path}

-- back from a hexadecimal digit
abbrev digit_of : ℕ → ℕ
digit_of c = c - (if ltb c 65 then 48 else 55)

digit_of-to_hex : (x : ℕ) → x < 16 → digit_of (to_hex x) ≡ x
unfolding to_hex
digit_of-to_hex x h = ground arith

-- the bytes that a text was made of
abbrev bytes_of : Bytes → List ℕ
bytes_of [] = []
bytes_of (h ∷ []) = []
bytes_of (h ∷ (l ∷ s)) = if ltb h 48 then [] else (digit_of h * 16 + digit_of l) ∷ bytes_of s

big_digit : (x : ℕ) → x < 16 → ltb (to_hex x) 48 ≡ false
unfolding to_hex
big_digit x h = ground arith

bytes_of-uuid_text : (uu : List ℕ) → All IsByte uu → bytes_of (uuid_text uu ++ codes ".html") ≡ uu
unfolding uuid_text
bytes_of-uuid_text [] h = refl
bytes_of-uuid_text (c ∷ uu) (hc, h) =
    let high = digit_of-to_hex (c / 16) (omega arith) in
    let low = digit_of-to_hex (c % 16) (omega arith) in
    let digit = big_digit (c / 16) (omega arith) in
    let whole : c / 16 * 16 + c % 16 ≡ c = omega arith in
    rw (digit, high, low, whole) (ap (◌∷◌ c) (bytes_of-uuid_text uu h))

drop-append : (a b : Bytes) → drop (length a) (a ++ b) ≡ b
drop-append [] b = refl
drop-append (c ∷ a) b = drop-append a b

-- the bytes are found again in a path
abbrev uuid_of : Bytes → Bytes → List ℕ
uuid_of dir path = bytes_of (drop (length (dir ++ codes "/")) path)

uuid_of-tmp_path : (dir : Bytes) (uu : List ℕ) → All IsByte uu → uuid_of dir (tmp_path dir uu) ≡ uu
unfolding tmp_path
uuid_of-tmp_path dir uu h =
    ap (uuid_of dir) (sym (append_assoc dir (codes "/") (uuid_text uu ++ codes ".html")))
    ∙ ap bytes_of (drop-append (dir ++ codes "/") (uuid_text uu ++ codes ".html"))
    ∙ bytes_of-uuid_text uu h

-- Two uuids give two names.
pub tmp_path-injective :
    (dir : Bytes) (uu vv : List ℕ)
    → All IsByte uu
    → All IsByte vv
    → tmp_path dir uu ≡ tmp_path dir vv
    → uu ≡ vv
tmp_path-injective dir uu vv hu hv e =
    sym (uuid_of-tmp_path dir uu hu) ∙ ap (uuid_of dir) e ∙ uuid_of-tmp_path dir vv hv
