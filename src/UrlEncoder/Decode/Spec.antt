-- ===== src/UrlEncoder/Decode/Spec.antt =====
-- What decoding means, with no state machine.
use studytest.Base.{
  length, ℕ, zero, suc, ◌+◌, ◌-◌, ◌*◌, [], ◌∷◌, ◌++◌, Option, some, none, Bool, true, false, ◌&&◌,
  ◌||◌, Bytes, ltb, leb, ◌==◌, if◌then◌else◌,
}
use studytest.UrlEncoder.Table.{escaped, Reply, wrote, failed}

unfoldable pub hex_value : ℕ → Option ℕ
hex_value c =
    if leb b'0' c && leb c b'9'
    then some (c - b'0')
    else if leb b'A' c && leb c b'F'
    then some (c - b'A' + 10)
    else if leb b'a' c && leb c b'f'
    then some (c - b'a' + 10)
    else none

-- Two hexadecimal digits behind a `%` are an escape if they spell a byte above the blank.
unfoldable pub escape : ℕ → ℕ → Option ℕ
unfolding hex_value
escape h l = elim (hex_value h) [
  | none ↦ none
  | some x ↦ elim (hex_value l) [
    | none ↦ none
    | some y ↦ if ltb 0x20 (x * 16 + y) then some (x * 16 + y) else none
  ]
]

unfoldable pub escape_at : Bytes → Option ℕ
unfolding escape
escape_at (c ∷ (h ∷ (l ∷ s))) = if c == b'%' then escape h l else none
escape_at s = none

-- a `;` or a `?` opens the arguments
abbrev pub opens : ℕ → Bool
opens c = c == b';' || c == b'?'

-- A byte that begins no escape: a tab or a line end is dropped, any other byte up to the blank is
-- escaped, and a backslash outside the arguments becomes a slash.
unfoldable pub plain : Bool → ℕ → Bytes
unfolding escaped
plain argu c =
    if c == b'\t' || (c == b'\r' || c == b'\n')
    then []
    else if leb c 0x20
    then escaped c
    else if c == b'\\' && (if argu then false else true)
    then b'/' ∷ []
    else c ∷ []

-- the text decoded, from a position where the next `skip` bytes belong to an escape already read
unfoldable pub decoded : Bool → ℕ → Bytes → Bytes
unfolding escape_at plain
decoded argu skip [] = []
decoded argu (suc skip) (c ∷ s) = decoded argu skip s
decoded argu zero (c ∷ s) = elim (escape_at (c ∷ s)) [
  | some b ↦ b ∷ decoded argu 2 s
  | none ↦ plain argu c ++ decoded (if opens c then true else argu) 0 s
]

-- The reply for a text: it and a NUL must leave four bytes of the buffer over.
abbrev pub verdict : ℕ → Bytes → Reply
verdict destsize t = if ltb (length t + 4) destsize then wrote t else failed
