-- ===== src/UrlCodec/Tests.antt =====
-- URL encoding at concrete strings, and the theorems about it there.
use studytest.Base.{◌≡◌, [], refl, none, some, arith, codes}
use studytest.UrlCodec.{url_encode, url_decode}
use studytest.UrlCodec.RoundTrip.{url_decode-url_encode}

encode_query : url_encode (codes "a b&c/") [] ≡ codes "a+b%26c%2F"
unfolding url_encode
encode_query = refl

decode_lower : url_decode (codes "%2f+%2F") [] ≡ some (codes "/ /")
unfolding url_decode
decode_lower = refl

decode_cut_short : url_decode (codes "ab%2") [] ≡ none
unfolding url_decode
decode_cut_short = refl

-- `G` is taken for 16 and `Z` for 35
decode_not_hex : url_decode (codes "%GZ") [] ≡ some (codes "#")
unfolding url_decode
decode_not_hex = refl

url_decode-url_encode_example :
    url_decode (url_encode (codes "50% of a+b") []) [] ≡ some (codes "50% of a+b")
url_decode-url_encode_example = url_decode-url_encode (codes "50% of a+b") (omega arith)
