-- ===== src/Md5/Rfc.antt =====
-- MD5 as RFC 1321 describes it, written from the RFC: nothing of down_parse_client/utils/MD5.cpp stands here,
-- and of the module of that file only the record of four words.
use Prim.Native.Nat.{bit_and, bit_or, bit_xor}
use studytest.Base.{
  ℕ, zero, suc, ◌+◌, ◌-◌, ◌*◌, ◌/◌, ◌%◌, ◌^◌, List, [], ◌∷◌, ◌++◌, Bytes, get_or, length, take,
  drop, replicate,
}
use studytest.Md5.Transform.{Words}

abbrev pub Function : Type 0
Function = ℕ → ℕ → ℕ → ℕ

abbrev complement : ℕ → ℕ
complement x = 4294967295 - x

-- F: if X then Y else Z, in each bit; G: if Z then X else Y; H: the parity; I
abbrev pub choose_by_first : Function
choose_by_first x y z = bit_or (bit_and x y) (bit_and (complement x) z)

abbrev pub choose_by_last : Function
choose_by_last x y z = bit_or (bit_and x z) (bit_and y (complement z))

abbrev pub parity : Function
parity x y z = bit_xor (bit_xor x y) z

abbrev pub mixed : Function
mixed x y z = bit_xor y (bit_or x (complement z))

-- the integer part of 2 ^ 32 * |sin (i + 1)|
abbrev pub sines : List ℕ
sines =
    3614090360 ∷ 3905402710 ∷ 606105819 ∷ 3250441966 ∷ 4118548399 ∷ 1200080426 ∷ 2821735955
    ∷ 4249261313 ∷ 1770035416 ∷ 2336552879 ∷ 4294925233 ∷ 2304563134 ∷ 1804603682 ∷ 4254626195
    ∷ 2792965006 ∷ 1236535329 ∷ 4129170786 ∷ 3225465664 ∷ 643717713 ∷ 3921069994 ∷ 3593408605
    ∷ 38016083 ∷ 3634488961 ∷ 3889429448 ∷ 568446438 ∷ 3275163606 ∷ 4107603335 ∷ 1163531501
    ∷ 2850285829 ∷ 4243563512 ∷ 1735328473 ∷ 2368359562 ∷ 4294588738 ∷ 2272392833 ∷ 1839030562
    ∷ 4259657740 ∷ 2763975236 ∷ 1272893353 ∷ 4139469664 ∷ 3200236656 ∷ 681279174 ∷ 3936430074
    ∷ 3572445317 ∷ 76029189 ∷ 3654602809 ∷ 3873151461 ∷ 530742520 ∷ 3299628645 ∷ 4096336452
    ∷ 1126891415 ∷ 2878612391 ∷ 4237533241 ∷ 1700485571 ∷ 2399980690 ∷ 4293915773 ∷ 2240044497
    ∷ 1873313359 ∷ 4264355552 ∷ 2734768916 ∷ 1309151649 ∷ 4149444226 ∷ 3174756917 ∷ 718787259
    ∷ 3951481745 ∷ []

-- `x <<< s` of 32 bits
abbrev pub rotated : ℕ → ℕ → ℕ
rotated x s = bit_or (x * 2 ^ s % 2 ^ 32) (x / 2 ^ (32 - s))

-- the new value of `a`: a = b + ((a + F(b, c, d) + X[k] + T[i]) <<< s)
abbrev pub summed : Function → ℕ → ℕ → ℕ → Words → ℕ
summed fn word sine s w = (w.b + rotated ((w.a + fn w.b w.c w.d + word + sine) % 2 ^ 32) s) % 2 ^ 32

-- `n` operations of a round, from operation `i` of all 64 on: the word is found by a rule, the shifts come round
-- again each fourth time.
unfoldable pub operations : Function → (ℕ → ℕ) → List ℕ → ℕ → ℕ → List ℕ → Words → Words
operations fn index shifts zero i x w = w
operations fn index shifts (suc n) i x w = operations fn index shifts n (suc i) x (record {
  a = w.d;
  b = summed fn (get_or x (index i) 0) (get_or sines i 0) (get_or shifts (i % 4) 0) w;
  c = w.b;
  d = w.c;
})

-- which word of the block an operation takes, in each round
abbrev pub first_index : ℕ → ℕ
first_index i = i

abbrev pub second_index : ℕ → ℕ
second_index i = (5 * i + 1) % 16

abbrev pub third_index : ℕ → ℕ
third_index i = (3 * i + 5) % 16

abbrev pub fourth_index : ℕ → ℕ
fourth_index i = 7 * i % 16

-- the shifts of each round
abbrev pub first_shifts : List ℕ
first_shifts = 7 ∷ 12 ∷ 17 ∷ 22 ∷ []

abbrev pub second_shifts : List ℕ
second_shifts = 5 ∷ 9 ∷ 14 ∷ 20 ∷ []

abbrev pub third_shifts : List ℕ
third_shifts = 4 ∷ 11 ∷ 16 ∷ 23 ∷ []

abbrev pub fourth_shifts : List ℕ
fourth_shifts = 6 ∷ 10 ∷ 15 ∷ 21 ∷ []

-- the words of a block, each with its low byte first
unfoldable pub words_of : Bytes → List ℕ
words_of (p ∷ (q ∷ (r ∷ (s ∷ bytes)))) =
    bit_or (bit_or (bit_or p (q * 256)) (r * 65536)) (s * 16777216) ∷ words_of bytes
words_of bytes = []

unfoldable pub compress_words : Words → List ℕ → Words
unfolding operations
compress_words w x =
    let w1 = operations choose_by_first first_index first_shifts 16 0 x w in
    let w2 = operations choose_by_last second_index second_shifts 16 16 x w1 in
    let w3 = operations parity third_index third_shifts 16 32 x w2 in
    let w4 = operations mixed fourth_index fourth_shifts 16 48 x w3 in
    record {
      a = (w.a + w4.a) % 2 ^ 32;
      b = (w.b + w4.b) % 2 ^ 32;
      c = (w.c + w4.c) % 2 ^ 32;
      d = (w.d + w4.d) % 2 ^ 32;
    }

abbrev pub compress : Words → Bytes → Words
compress w block = compress_words w (words_of block)

unfoldable pub compress_all : ℕ → Words → Bytes → Words
unfolding compress_words words_of
compress_all zero w s = w
compress_all (suc n) w s = compress_all n (compress w (take 64 s)) (drop 64 s)

-- the last bytes of a number, the low one first
unfoldable pub octets : ℕ → ℕ → Bytes
octets zero n = []
octets (suc k) n = bit_and n 255 ∷ octets k (n / 256)

-- as many zeros as are wanted for a length of 56 bytes modulo 64, behind the byte 0x80
abbrev pub zeros_behind : ℕ → ℕ
zeros_behind len = (119 - len % 64) % 64

-- the length in bits, as two words, the low one first
abbrev pub bit_length : ℕ → Bytes
bit_length len = octets 4 (len * 8 % 2 ^ 32) ++ octets 4 (len * 8 / 2 ^ 32 % 2 ^ 32)

abbrev pub padded_message : Bytes → Bytes
padded_message msg =
    msg ++ ((128 ∷ replicate (zeros_behind (length msg)) 0) ++ bit_length (length msg))

-- 01 23 45 67, 89 ab cd ef, fe dc ba 98, 76 54 32 10, each with its low byte first
abbrev pub first_words : Words
first_words = record { a = 1732584193; b = 4023233417; c = 2562383102; d = 271733878 }

unfoldable pub rfc1321 : Bytes → Bytes
unfolding compress_all octets
rfc1321 msg =
    let text = padded_message msg in
    let w = compress_all (length text / 64) first_words text in
    octets 4 w.a ++ (octets 4 w.b ++ (octets 4 w.c ++ octets 4 w.d))
