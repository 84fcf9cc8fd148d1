-- ===== src/Strings/Tests.antt =====
-- The functions of Utils.cpp at concrete strings, and the theorems about them there.
use mathlib.Core.List.{cons-ne-nil}
use studytest.Base.{◌≡◌, refl, [], ◌∷◌, Bytes, codes, has}
use studytest.Strings.{
  leaves, strays, hangs, ltrim, ltrim_char, trim, trim_char, rtrim, rtrim_char, explode,
}
use studytest.Strings.Trim.{Trimmed, trim_lem}
use studytest.Strings.Split.{join, join-explode}

abbrev blanks : Bytes
blanks = codes "\t\n\r "

abbrev row : Bytes
row = codes " a b \n"

trim-row : trim row blanks ≡ leaves (codes "a b")
unfolding trim
trim-row = refl

trim_commas : trim_char (codes "a,b,,") b',' ≡ leaves (codes "a,b")
unfolding trim_char
trim_commas = refl

trim_only_commas : trim_char (codes ",,") b',' ≡ strays
unfolding trim_char
trim_only_commas = refl

trim_blank : trim (codes " \t") blanks ≡ leaves []
unfolding trim
trim_blank = refl

ltrim_nul : ltrim [] (0 ∷ []) ≡ leaves []
unfolding ltrim
ltrim_nul = refl

ltrim_slash : ltrim_char (codes "//a") b'/' ≡ leaves (codes "a")
unfolding ltrim_char
ltrim_slash = refl

ltrim_hangs : ltrim_char (0 ∷ []) 0 ≡ hangs
unfolding ltrim_char
ltrim_hangs = refl

rtrim_slash : rtrim (codes "/task//") (codes "/") ≡ leaves (codes "/task")
unfolding rtrim
rtrim_slash = refl

rtrim_char_slash : rtrim_char (codes "/") b'/' ≡ strays
unfolding rtrim_char
rtrim_char_slash = refl

-- `rtrim(s, ".html")` takes any of the five characters off, not the suffix
rtrim_html : rtrim (codes "6c6d.html") (codes ".html") ≡ leaves (codes "6c6d")
unfolding rtrim
rtrim_html = refl

explode_host :
    explode (codes "host:80:3") (codes ":") [] ≡ codes "host" ∷ codes "80" ∷ codes "3" ∷ []
unfolding explode
explode_host = refl

explode_lines : explode (codes "a\r\n\r\nb") (codes "\r\n") [] ≡ codes "a" ∷ [] ∷ codes "b" ∷ []
unfolding explode
explode_lines = refl

trim_lem_example : Trimmed (has blanks) row (trim row blanks)
trim_lem_example = trim_lem row blanks refl

join-explode_example :
    join (explode (codes "a\r\nb") (codes "\r\n") []) (codes "\r\n") ≡ codes "a\r\nb"
join-explode_example =
    join-explode (codes "a\r\nb") (codes "\r\n") (cons-ne-nil _ _) (cons-ne-nil _ _)
