-- ===== src/Md5/Transform.antt =====
-- down_parse_client/utils/MD5.cpp: the word functions, the four rounds, and words as bytes. A
-- `uint32` is a number below 2 ^ 32, and sums wrap.
use Prim.Native.Nat.{bit_and, bit_or, bit_xor}
use studytest.Base.{ℕ, ◌+◌, ◌-◌, ◌*◌, ◌/◌, ◌%◌, ◌^◌, List, [], ◌∷◌, ◌++◌, Bytes, get_or, codes}

-- `~x`
abbrev pub not32 : ℕ → ℕ
not32 x = 2 ^ 32 - 1 - x

unfoldable pub f : ℕ → ℕ → ℕ → ℕ
f x y z = bit_or (bit_and x y) (bit_and (not32 x) z)

unfoldable pub g : ℕ → ℕ → ℕ → ℕ
g x y z = bit_or (bit_and x z) (bit_and y (not32 z))

unfoldable pub h : ℕ → ℕ → ℕ → ℕ
h x y z = bit_xor (bit_xor x y) z

unfoldable pub i : ℕ → ℕ → ℕ → ℕ
i x y z = bit_xor y (bit_or x (not32 z))

unfoldable pub rotate_left : ℕ → ℕ → ℕ
rotate_left x n = bit_or (x * 2 ^ n % 2 ^ 32) (x / 2 ^ (32 - n))

-- `_state`, and the variables of `transform`
pub record Words : Type 0 where
  pub a : ℕ
  pub b : ℕ
  pub c : ℕ
  pub d : ℕ

-- One line of a round: which word of the block, the shift, and the constant.
pub record Line : Type 0 where
  pub word : ℕ
  pub shift : ℕ
  pub constant : ℕ

abbrev pub line : ℕ → ℕ → ℕ → Line
line k s ac = record { word = k; shift = s; constant = ac }

-- FF, GG, HH and II, with the word function as an argument: the new value of `a`.
unfoldable pub mix : (ℕ → ℕ → ℕ → ℕ) → List ℕ → Words → Line → ℕ
unfolding rotate_left
mix fn x w l =
    (rotate_left ((w.a + fn w.b w.c w.d + get_or x l.word 0 + l.constant) % 2 ^ 32) l.shift + w.b)
    % 2 ^ 32

-- The lines of a round. The source names the variables a, b, c, d, then d, a, b, c, and so on: each
-- line changes the first one, and the next line has it second.
unfoldable pub round : (ℕ → ℕ → ℕ → ℕ) → List ℕ → List Line → Words → Words
unfolding mix
round fn x [] w = w
round fn x (l ∷ ls) w = round fn x ls (record { a = w.d; b = mix fn x w l; c = w.b; d = w.c })

abbrev pub round1 : List Line
round1 =
    line 0 7 0xd76aa478
    ∷ line 1 12 0xe8c7b756
    ∷ line 2 17 0x242070db
    ∷ line 3 22 0xc1bdceee
    ∷ line 4 7 0xf57c0faf
    ∷ line 5 12 0x4787c62a
    ∷ line 6 17 0xa8304613
    ∷ line 7 22 0xfd469501
    ∷ line 8 7 0x698098d8
    ∷ line 9 12 0x8b44f7af
    ∷ line 10 17 0xffff5bb1
    ∷ line 11 22 0x895cd7be
    ∷ line 12 7 0x6b901122
    ∷ line 13 12 0xfd987193
    ∷ line 14 17 0xa679438e
    ∷ line 15 22 0x49b40821
    ∷ []

abbrev pub round2 : List Line
round2 =
    line 1 5 0xf61e2562
    ∷ line 6 9 0xc040b340
    ∷ line 11 14 0x265e5a51
    ∷ line 0 20 0xe9b6c7aa
    ∷ line 5 5 0xd62f105d
    ∷ line 10 9 0x2441453
    ∷ line 15 14 0xd8a1e681
    ∷ line 4 20 0xe7d3fbc8
    ∷ line 9 5 0x21e1cde6
    ∷ line 14 9 0xc33707d6
    ∷ line 3 14 0xf4d50d87
    ∷ line 8 20 0x455a14ed
    ∷ line 13 5 0xa9e3e905
    ∷ line 2 9 0xfcefa3f8
    ∷ line 7 14 0x676f02d9
    ∷ line 12 20 0x8d2a4c8a
    ∷ []

abbrev pub round3 : List Line
round3 =
    line 5 4 0xfffa3942
    ∷ line 8 11 0x8771f681
    ∷ line 11 16 0x6d9d6122
    ∷ line 14 23 0xfde5380c
    ∷ line 1 4 0xa4beea44
    ∷ line 4 11 0x4bdecfa9
    ∷ line 7 16 0xf6bb4b60
    ∷ line 10 23 0xbebfbc70
    ∷ line 13 4 0x289b7ec6
    ∷ line 0 11 0xeaa127fa
    ∷ line 3 16 0xd4ef3085
    ∷ line 6 23 0x4881d05
    ∷ line 9 4 0xd9d4d039
    ∷ line 12 11 0xe6db99e5
    ∷ line 15 16 0x1fa27cf8
    ∷ line 2 23 0xc4ac5665
    ∷ []

abbrev pub round4 : List Line
round4 =
    line 0 6 0xf4292244
    ∷ line 7 10 0x432aff97
    ∷ line 14 15 0xab9423a7
    ∷ line 5 21 0xfc93a039
    ∷ line 12 6 0x655b59c3
    ∷ line 3 10 0x8f0ccc92
    ∷ line 10 15 0xffeff47d
    ∷ line 1 21 0x85845dd1
    ∷ line 8 6 0x6fa87e4f
    ∷ line 15 10 0xfe2ce6e0
    ∷ line 6 15 0xa3014314
    ∷ line 13 21 0x4e0811a1
    ∷ line 4 6 0xf7537e82
    ∷ line 11 10 0xbd3af235
    ∷ line 2 15 0x2ad7d2bb
    ∷ line 9 21 0xeb86d391
    ∷ []

-- `decode` of four bytes
unfoldable pub decode_word : ℕ → ℕ → ℕ → ℕ → ℕ
decode_word p q r s = bit_or (bit_or (bit_or p (q * 2 ^ 8)) (r * 2 ^ 16)) (s * 2 ^ 24)

unfoldable pub decode : Bytes → List ℕ
unfolding decode_word
decode (p ∷ (q ∷ (r ∷ (s ∷ bytes)))) = decode_word p q r s ∷ decode bytes
decode bytes = []

-- `encode` of one word
unfoldable pub encode_word : ℕ → Bytes
encode_word w =
    bit_and w 0xff
    ∷ (bit_and (w / 2 ^ 8) 0xff ∷ (bit_and (w / 2 ^ 16) 0xff ∷ (bit_and (w / 2 ^ 24) 0xff ∷ [])))

unfoldable pub encode : List ℕ → Bytes
unfolding encode_word
encode [] = []
encode (w ∷ ws) = encode_word w ++ encode ws

-- `transform`, of the state and a block of 64 bytes
unfoldable pub transform : Words → Bytes → Words
unfolding decode round f g h i
transform w block =
    let x = decode block in
    let w' = round i x round4 (round h x round3 (round g x round2 (round f x round1 w))) in
    record {
      a = (w.a + w'.a) % 2 ^ 32;
      b = (w.b + w'.b) % 2 ^ 32;
      c = (w.c + w'.c) % 2 ^ 32;
      d = (w.d + w'.d) % 2 ^ 32;
    }

abbrev pub hex_digits : Bytes
hex_digits = codes "0123456789abcdef"

-- `bytesToHexString`
unfoldable pub bytes_to_hex_string : Bytes → Bytes
bytes_to_hex_string [] = []
bytes_to_hex_string (t ∷ input) =
    get_or hex_digits (t / 16) 0 ∷ (get_or hex_digits (t % 16) 0 ∷ bytes_to_hex_string input)
