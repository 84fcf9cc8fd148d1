-- ===== src/Md5.antt =====
-- down_parse_client/utils/MD5.cpp: the digest object. An object is a record, and a method returns the
-- new object. The `uint32` index of `update` wraps around: for an input of 2 ^ 32 - 63 bytes or more the loop of
-- the source may never end, and what the model then gives means nothing.
pub mod Transform
pub mod Spec
pub mod Rfc
pub mod Agrees
pub mod Blocks
pub mod Hold
pub mod Final
pub mod Again
pub mod Stream
pub mod Hex
mod Tests
use studytest.Base.{
  ℕ, zero, suc, ◌+◌, ◌-◌, ◌*◌, ◌/◌, ◌%◌, ◌^◌, List, [], ◌∷◌, ◌++◌, Bool, true, false, Bytes, length,
  take, drop, replicate, ltb, leb, if◌then◌else◌,
}
use studytest.Md5.Transform.{Words, transform, encode, bytes_to_hex_string}

pub record Md5 : Type 0 where
  pub state : Words
  pub count0 : ℕ
  pub count1 : ℕ
  pub buffer : Bytes
  pub digest_bytes : Bytes
  pub finished : Bool

abbrev pub initial : Words
initial = record { a = 0x67452301; b = 0xefcdab89; c = 0x98badcfe; d = 0x10325476 }

abbrev pub padding : Bytes
padding = 0x80 ∷ replicate 63 0

unfoldable pub reset : Md5 → Md5
reset m = record m { finished = false; count0 = 0; count1 = 0; state = initial }

-- `memcpy(&_buffer[index], input, length)`
abbrev pub write_at : Bytes → ℕ → Bytes → Bytes
write_at buffer index input = take index buffer ++ (input ++ drop (index + length input) buffer)

-- `(_count[0] >> 3) & 0x3f`
abbrev pub index_of : ℕ → ℕ
index_of count0 = count0 / 2 ^ 3 % 64

-- The loop over whole blocks, from the index `i` on: the state behind it, and what is left of the input. Each
-- round takes 64 bytes, so that the length is fuel enough if `i + 63` does not wrap around.
unfoldable pub blocks : ℕ → ℕ → Words → Bytes → Words × Bytes
blocks zero i w input = (w, drop i input)
blocks (suc n) i w input =
    let more = blocks n ((i + 64) % 2 ^ 32) (transform w (take 64 (drop i input))) input in
    if ltb ((i + 63) % 2 ^ 32) (length input) then more else (w, drop i input)

-- the two words of the bit count after `length` more bytes, the carry included
abbrev pub add_count0 : ℕ → ℕ → ℕ
add_count0 count0 len = (count0 + len * 2 ^ 3 % 2 ^ 32) % 2 ^ 32

abbrev pub add_count1 : ℕ → ℕ → ℕ → ℕ
add_count1 count0 count1 len =
    (count1 + (if ltb (add_count0 count0 len) (len * 2 ^ 3 % 2 ^ 32) then 1 else 0) + len / 2 ^ 29)
    % 2 ^ 32

-- `update(input, length)`
unfoldable pub update : Md5 → Bytes → Md5
unfolding blocks
update m input =
    let index = index_of m.count0 in
    let part_len = 64 - index in
    let counted = record m {
      finished = false;
      count0 = add_count0 m.count0 (length input);
      count1 = add_count1 m.count0 m.count1 (length input);
    } in
    if leb part_len (length input)
    then (let filled = write_at m.buffer index (take part_len input) in
        let (w, rest) = blocks (length input) part_len (transform m.state filled) input in
        record counted { state = w; buffer = write_at filled 0 rest })
    else record counted { buffer = write_at m.buffer index input }

-- `final`: the state and the count are put back, the buffer is not.
unfoldable pub final : Md5 → Md5
final m =
    let bits = encode (m.count0 ∷ (m.count1 ∷ [])) in
    let index = index_of m.count0 in
    let pad_len = if ltb index 56 then 56 - index else 120 - index in
    let padded = update (update m (take pad_len padding)) bits in
    record padded {
      digest_bytes =
          encode (padded.state.a ∷ (padded.state.b ∷ (padded.state.c ∷ (padded.state.d ∷ []))));
      state = m.state;
      count0 = m.count0;
      count1 = m.count1;
    }

-- `digest`: the object, whose `digest_bytes` are returned
unfoldable pub digest : Md5 → Md5
digest m = if m.finished then m else final (record m { finished = true })

-- `toString`: the object and the text
unfoldable pub to_string : Md5 → Md5 × Bytes
unfolding digest
to_string m = let m' = digest m in (m', bytes_to_hex_string m'.digest_bytes)
