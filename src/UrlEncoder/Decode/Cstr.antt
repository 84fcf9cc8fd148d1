-- ===== src/UrlEncoder/Decode/Cstr.antt =====
-- `decoding(src, dest, destsize)` of URLEncoder.cpp: the state machine of the other decoder, with the
-- end of the source at a NUL. A byte behind the list reads as a NUL; no list that holds one is read there.
pub mod Agrees
use studytest.Base.{
  ℕ, zero, suc, ◌+◌, ◌-◌, ◌*◌, ◌^◌, ◌%◌, [], ◌∷◌, ◌++◌, Option, some, none, Bool, true, false, ◌&&◌,
  ◌||◌, not, Bytes, length, get_or, leb, ltb, ◌==◌, if◌then◌else◌,
}
use studytest.UrlEncoder.Table.{escaped, Reply, untouched}
use studytest.UrlEncoder.Decode.{
  State, common, escape1, escape2, Decoder, step_back, on_escape2, start, finish,
}

-- `*(pscan + n) == '\0'`
abbrev pub nul_at : ℕ → Bytes → Bool
nul_at n mem = get_or mem n 0 == 0

-- DS_COMMON at the byte `c`; `s` is the memory behind it.
unfoldable pub on_common_cstr : Decoder → ℕ → Bytes → Decoder
unfolding escaped
on_common_cstr d c s =
    let moved = record d { passed = c ∷ d.passed; ahead = s } in
    let argu = if c == b';' || c == b'?' then true else d.ifargu in
    if leb c 0x20
    then (if c == b'\t' || (c == b'\r' || c == b'\n')
        then moved
        else record moved { out = d.out ++ escaped c })
    else if c == b'%'
    then (if d.nonescback || (nul_at 0 s || nul_at 1 s)
        then record moved { out = d.out ++ c ∷ []; nonescback = false; ifargu = argu }
        else record moved { state = escape1; ifargu = argu })
    else if c == b'\\'
    then record moved { out = d.out ++ (if argu then b'\\' else b'/') ∷ []; ifargu = argu }
    else record moved { out = d.out ++ c ∷ []; ifargu = argu }

-- `(*(pscan + 1) != '\0') && (*(pscan + 1) != '0')`
abbrev pub next_not_zero_cstr : Bytes → Bool
next_not_zero_cstr s = not (nul_at 0 s) && not (get_or s 0 0 == b'0')

-- DS_ESCAPE1
unfoldable pub on_escape1_cstr : Decoder → ℕ → Bytes → Decoder
unfolding step_back
on_escape1_cstr d c s =
    let moved = record d { state = escape2; passed = c ∷ d.passed; ahead = s } in
    if leb b'A' c && leb c b'F'
    then record moved { deescape = (c - b'A' + 10) * 2 ^ 4 % 256 }
    else if leb b'a' c && leb c b'f'
    then record moved { deescape = (c - b'a' + 10) * 2 ^ 4 % 256 }
    else if leb b'3' c && leb c b'9'
    then record moved { deescape = (c - b'0') * 2 ^ 4 % 256 }
    else if c == b'2' && next_not_zero_cstr s
    then record moved { deescape = (c - b'0') * 2 ^ 4 % 256 }
    else step_back (record d { state = common; nonescback = true }) d.passed

-- DS_ESCAPE2 is written as in the other decoder.
abbrev pub on_escape2_cstr : Decoder → ℕ → Bytes → Decoder
on_escape2_cstr d c s = on_escape2 d c s

-- the `switch`
unfoldable pub dispatch_cstr : State → Decoder → Bytes → Decoder
dispatch_cstr state d [] = d
dispatch_cstr common d (c ∷ s) = on_common_cstr d c s
dispatch_cstr escape1 d (c ∷ s) = on_escape1_cstr d c s
dispatch_cstr escape2 d (c ∷ s) = on_escape2_cstr d c s

-- `while ((*pscan != '\0') && (pdest < pdestend))`, on fuel
pub decoding_cstr_loop : ℕ → ℕ → Decoder → Decoder
decoding_cstr_loop zero destsize d = d
decoding_cstr_loop (suc f) destsize d =
    let rest = decoding_cstr_loop f destsize (dispatch_cstr d.state d d.ahead) in
    if not (nul_at 0 d.ahead) && ltb (length d.out + 4) destsize then rest else d

-- the bytes before the NUL, which bound the rounds
pub text_length : Bytes → ℕ
text_length [] = 0
text_length (c ∷ mem) = let n = text_length mem in if c == 0 then 0 else suc n

-- `none` is NULL, and the list is the memory from `src` on.
unfoldable pub decoding_cstr : Option Bytes → ℕ → Reply
unfolding decoding_cstr_loop finish text_length
decoding_cstr none destsize = untouched
decoding_cstr (some mem) destsize =
    finish destsize (decoding_cstr_loop (4 * text_length mem + 1) destsize (start mem))
