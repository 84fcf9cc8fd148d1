-- ===== src/UrlEncoder/Decode.antt =====
-- `decoding(src, srclen, dest, destsize)` of URLEncoder.cpp: a state machine that walks back over an
-- escape that proves to be none.
pub mod Spec
pub mod Steps
mod Rounds
pub mod Refine
pub mod Fits
pub mod Cstr
use Prim.Native.Nat.{bit_or}
use studytest.Base.{
  ℕ, zero, suc, ◌+◌, ◌-◌, ◌*◌, ◌%◌, ◌^◌, List, [], ◌∷◌, ◌++◌, Option, some, none, Bool, true, false,
  ◌&&◌, ◌||◌, not, Bytes, length, ltb, leb, ◌==◌, if◌then◌else◌,
}
use studytest.UrlEncoder.Table.{escaped, Reply, untouched, wrote, failed}

-- DECODER_STATE
pub data State : Type 0 where
  common escape1 escape2 : State

-- The variables of the loop. `pscan` is the place between the bytes passed, the last one first, and
-- those ahead; `out` is what is written so far.
pub record Decoder : Type 0 where
  pub state : State
  pub passed : Bytes
  pub ahead : Bytes
  pub out : Bytes
  pub deescape : ℕ
  pub nonescback : Bool
  pub ifargu : Bool

-- `pscan --`
pub step_back : Decoder → Bytes → Decoder
step_back d [] = d
step_back d (p ∷ ps) = record d { passed = ps; ahead = p ∷ d.ahead }

-- `pscan -= 2`
pub step_back_two : Decoder → Bytes → Decoder
step_back_two d [] = d
step_back_two d (p ∷ []) = d
step_back_two d (p ∷ (q ∷ ps)) = record d { passed = ps; ahead = q ∷ (p ∷ d.ahead) }

-- DS_COMMON at the byte `c`; `s` is what follows it.
unfoldable pub on_common : Decoder → ℕ → Bytes → Decoder
unfolding escaped
on_common d c s =
    let moved = record d { passed = c ∷ d.passed; ahead = s } in
    let argu = if c == b';' || c == b'?' then true else d.ifargu in
    if leb c 0x20
    then (if c == b'\t' || (c == b'\r' || c == b'\n')
        then moved
        else record moved { out = d.out ++ escaped c })
    else if c == b'%'
    then (if d.nonescback || leb (length (c ∷ s)) 2
        then record moved { out = d.out ++ c ∷ []; nonescback = false; ifargu = argu }
        else record moved { state = escape1; ifargu = argu })
    else if c == b'\\'
    then record moved { out = d.out ++ (if argu then b'\\' else b'/') ∷ []; ifargu = argu }
    else record moved { out = d.out ++ c ∷ []; ifargu = argu }

-- `((pscan + 1) < pend) && (*(pscan + 1) != '0')`, of what follows `pscan`
pub next_not_zero : Bytes → Bool
next_not_zero [] = false
next_not_zero (l ∷ s) = not (l == b'0')

-- DS_ESCAPE1. `deescape` is kept as the byte that is written in the end.
unfoldable pub on_escape1 : Decoder → ℕ → Bytes → Decoder
unfolding next_not_zero step_back
on_escape1 d c s =
    let moved = record d { state = escape2; passed = c ∷ d.passed; ahead = s } in
    if leb b'A' c && leb c b'F'
    then record moved { deescape = (c - b'A' + 10) * 2 ^ 4 % 256 }
    else if leb b'a' c && leb c b'f'
    then record moved { deescape = (c - b'a' + 10) * 2 ^ 4 % 256 }
    else if leb b'3' c && leb c b'9'
    then record moved { deescape = (c - b'0') * 2 ^ 4 % 256 }
    else if c == b'2' && next_not_zero s
    then record moved { deescape = (c - b'0') * 2 ^ 4 % 256 }
    else step_back (record d { state = common; nonescback = true }) d.passed

-- the digit that DS_ESCAPE2 adds
unfoldable pub low_digit : ℕ → Option ℕ
low_digit c =
    if leb b'A' c && leb c b'F'
    then some (c - b'A' + 10)
    else if leb b'a' c && leb c b'f'
    then some (c - b'a' + 10)
    else if leb b'0' c && leb c b'9'
    then some (c - b'0')
    else none

-- DS_ESCAPE2. The source writes the three branches of `low_digit` out.
unfoldable pub on_escape2 : Decoder → ℕ → Bytes → Decoder
unfolding step_back_two
on_escape2 d c s = elim (low_digit c) [
  | some digit ↦
      let byte = bit_or d.deescape digit in
      record d {
        state = common;
        passed = c ∷ d.passed;
        ahead = s;
        deescape = byte;
        out = d.out ++ byte ∷ [];
      }
  | none ↦ step_back_two (record d { state = common; nonescback = true }) d.passed
]

-- the `switch`, at what is ahead
unfoldable pub dispatch : State → Decoder → Bytes → Decoder
dispatch state d [] = d
dispatch common d (c ∷ s) = on_common d c s
dispatch escape1 d (c ∷ s) = on_escape1 d c s
dispatch escape2 d (c ∷ s) = on_escape2 d c s

pub some_ahead : Bytes → Bool
some_ahead [] = false
some_ahead (c ∷ s) = true

-- `while ((pscan < pend) && (pdest < pdestend))`, on fuel. A byte takes four rounds at most.
pub decoding_loop : ℕ → ℕ → Decoder → Decoder
unfolding some_ahead
decoding_loop zero destsize d = d
decoding_loop (suc f) destsize d =
    let rest = decoding_loop f destsize (dispatch d.state d d.ahead) in
    if some_ahead d.ahead && ltb (length d.out + 4) destsize then rest else d

abbrev pub start : Bytes → Decoder
start s = record {
  state = common;
  passed = [];
  ahead = s;
  out = [];
  deescape = 0;
  nonescback = false;
  ifargu = false;
}

-- behind the loop: `pdest < pdestend`
pub finish : ℕ → Decoder → Reply
finish destsize d = if ltb (length d.out + 4) destsize then wrote d.out else failed

-- `none` is NULL, and the list holds `srclen` bytes.
unfoldable pub decoding : Option Bytes → ℕ → Reply
unfolding decoding_loop finish
decoding none destsize = untouched
decoding (some []) destsize = untouched
decoding (some (c ∷ s)) destsize =
    finish destsize (decoding_loop (4 * length (c ∷ s) + 1) destsize (start (c ∷ s)))
