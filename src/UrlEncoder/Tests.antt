-- ===== src/UrlEncoder/Tests.antt =====
-- URLEncoder.cpp at concrete buffers, and the theorems about it there.
use mathlib.Core.List.{cons-ne-nil}
use studytest.Base.{◌≡◌, ◌++◌, refl, [], ◌∷◌, some, none, arith, Bytes, codes, false}
use studytest.UrlEncoder.Table.{untouched, wrote, failed}
use studytest.UrlEncoder.Encode.{
  emit, encoding, encoding_cstr, Encodes, encoding-Encodes, encoding_cstr-eq,
}
use studytest.UrlEncoder.Decode.{decoding, dispatch, on_common, on_escape1, on_escape2, low_digit}
use studytest.UrlEncoder.Decode.Spec.{decoded, verdict}
use studytest.UrlEncoder.Decode.Refine.{decoding-decoded}
use studytest.UrlEncoder.Decode.Cstr.{decoding_cstr, dispatch_cstr, on_common_cstr, on_escape1_cstr}
use studytest.UrlEncoder.Decode.Cstr.Agrees.{decoding_cstr-eq}

-- the byte 0xb0, a blank and a letter
abbrev page : Bytes
page = 0xb0 ∷ codes " a"

encoding-page : encoding (some page) 64 ≡ wrote (codes "%B0+a")
unfolding encoding emit
encoding-page = refl

-- the buffer is too small and the reply is not -1
encoding_cut_short : encoding (some (codes "abc")) 6 ≡ wrote (codes "ab")
unfolding encoding emit
encoding_cut_short = refl

decoding_page : decoding (some (codes "a\\b%41?c\\d%20%4")) 64 ≡ wrote (codes "a/bA?c\\d%20%4")
unfolding decoding dispatch on_common on_escape1 on_escape2 low_digit
decoding_page = refl

decoding_no_escape : decoding (some (codes "%4G %1F%")) 64 ≡ wrote (codes "%4G%20%1F%")
unfolding decoding dispatch on_common on_escape1 on_escape2 low_digit
decoding_no_escape = refl

decoding_too_long : decoding (some (codes "abcd")) 8 ≡ failed
unfolding decoding dispatch on_common
decoding_too_long = refl

decoding_null : decoding none 8 ≡ untouched
unfolding decoding
decoding_null = refl

encoding-Encodes_example : Encodes page 64 (encoding (some page) 64)
encoding-Encodes_example = encoding-Encodes page 64 (cons-ne-nil _ _) (omega arith)

encoding_cstr-eq_example : encoding_cstr (some (page ++ (0 ∷ 7 ∷ []))) 64 ≡ encoding (some page) 64
encoding_cstr-eq_example =
    encoding_cstr-eq page (7 ∷ []) 64 (cons-ne-nil _ _) (refl, (refl, (refl, tt)))

decoding-decoded_example :
    decoding (some (codes "a%2Bb")) 64 ≡ verdict 64 (decoded false 0 (codes "a%2Bb"))
decoding-decoded_example = decoding-decoded (codes "a%2Bb") 64 (cons-ne-nil _ _)

decoding_cstr_page : decoding_cstr (some (codes "a%41%2" ++ (0 ∷ 7 ∷ []))) 64 ≡ wrote (codes "aA%2")
unfolding decoding_cstr dispatch_cstr on_common_cstr on_escape1_cstr on_escape2 low_digit
decoding_cstr_page = refl

decoding_cstr-eq_example : decoding_cstr (some (page ++ (0 ∷ 7 ∷ []))) 64 ≡ decoding (some page) 64
decoding_cstr-eq_example =
    decoding_cstr-eq page (7 ∷ []) 64 (cons-ne-nil _ _) (refl, (refl, (refl, tt)))
