-- ===== src/Md5/Agrees.antt =====
-- The MD5 of Spec, built with the compression of the source, is that of the RFC.
use Prim.Native.Nat.{bit_and}
use studytest.Base.{
  ℕ, zero, suc, ◌+◌, ◌-◌, ◌*◌, ◌/◌, ◌%◌, ◌^◌, ◌≤◌, ◌≡◌, refl, ap, ◌∙◌, List, [], ◌∷◌, ◌++◌,
  append-nil, Bytes, length, take, drop, replicate, get_or, arith,
}
use studytest.Md5.Transform.{
  Words, Line, line, mix, round, round1, round2, round3, round4, decode, encode, encode_word,
  transform, f, g, h, i, rotate_left, decode_word,
}
use studytest.Md5.{initial, padding}
use studytest.Md5.Spec.{chain, pad_length, length_bytes, padded, encode_words, md5}
use studytest.Md5.Rfc.{
  Function, choose_by_first, choose_by_last, parity, mixed, sines, summed, operations, first_index,
  second_index, third_index, fourth_index, first_shifts, second_shifts, third_shifts, fourth_shifts,
  words_of, compress_words, compress, compress_all, octets, zeros_behind, padded_message,
  first_words, rfc1321,
}

-- the lines that the rules of a round give
abbrev lines_by : (ℕ → ℕ) → List ℕ → ℕ → ℕ → List Line
lines_by index shifts zero i = []
lines_by index shifts (suc n) i =
    line (index i) (get_or shifts (i % 4) 0) (get_or sines i 0) ∷ lines_by index shifts n (suc i)

mix_lem :
    (fn : Function) (x : List ℕ) (w : Words) (k s t : ℕ)
    → mix fn x w (line k s t) ≡ summed fn (get_or x k 0) t s w
unfolding mix rotate_left
mix_lem fn x w k s t = omega arith

operations-round :
    (fn : Function) (index : ℕ → ℕ) (shifts : List ℕ) (n i : ℕ) (x : List ℕ) (w : Words)
    → round fn x (lines_by index shifts n i) w ≡ operations fn index shifts n i x w
unfolding round operations
operations-round fn index shifts zero i x w = refl
operations-round fn index shifts (suc n) i x w =
    ap
      (λ b.
        round fn x (lines_by index shifts n (suc i)) (record { a = w.d; b = b; c = w.b; d = w.c }))
      (mix_lem fn x w (index i) (get_or shifts (i % 4) 0) (get_or sines i 0))
    ∙ operations-round fn index shifts n (suc i) x _

decode-words_of : (block : Bytes) → decode block ≡ words_of block
unfolding decode words_of decode_word
decode-words_of [] = refl
decode-words_of (p ∷ []) = refl
decode-words_of (p ∷ (q ∷ [])) = refl
decode-words_of (p ∷ (q ∷ (r ∷ []))) = refl
decode-words_of (p ∷ (q ∷ (r ∷ (s ∷ bytes)))) =
    ap (◌∷◌ (decode_word p q r s)) (decode-words_of bytes)

first_round :
    (x : List ℕ) (w : Words)
    → round f x round1 w ≡ operations choose_by_first first_index first_shifts 16 0 x w
unfolding f
first_round x w = operations-round choose_by_first first_index first_shifts 16 0 x w

second_round :
    (x : List ℕ) (w : Words)
    → round g x round2 w ≡ operations choose_by_last second_index second_shifts 16 16 x w
unfolding g
second_round x w = operations-round choose_by_last second_index second_shifts 16 16 x w

third_round :
    (x : List ℕ) (w : Words)
    → round h x round3 w ≡ operations parity third_index third_shifts 16 32 x w
unfolding h
third_round x w = operations-round parity third_index third_shifts 16 32 x w

fourth_round :
    (x : List ℕ) (w : Words)
    → round i x round4 w ≡ operations mixed fourth_index fourth_shifts 16 48 x w
unfolding i
fourth_round x w = operations-round mixed fourth_index fourth_shifts 16 48 x w

abbrev added_to : Words → Words → Words
added_to w w' = record {
  a = (w.a + w'.a) % 2 ^ 32;
  b = (w.b + w'.b) % 2 ^ 32;
  c = (w.c + w'.c) % 2 ^ 32;
  d = (w.d + w'.d) % 2 ^ 32;
}

transform-compress : (w : Words) (block : Bytes) → transform w block ≡ compress w block
unfolding transform compress_words
transform-compress w block =
    let x = decode block in
    let w1 = operations choose_by_first first_index first_shifts 16 0 x w in
    let w2 = operations choose_by_last second_index second_shifts 16 16 x w1 in
    let w3 = operations parity third_index third_shifts 16 32 x w2 in
    ap (λ t. added_to w (round i x round4 (round h x round3 (round g x round2 t))))
      (first_round x w)
    ∙ ap (λ t. added_to w (round i x round4 (round h x round3 t))) (second_round x w1)
    ∙ ap (λ t. added_to w (round i x round4 t)) (third_round x w2)
    ∙ ap (added_to w) (fourth_round x w3)
    ∙ ap (compress_words w) (decode-words_of block)

chain-compress_all : (n : ℕ) (w : Words) (s : Bytes) → chain n w s ≡ compress_all n w s
unfolding chain compress_all
chain-compress_all zero w s = refl
chain-compress_all (suc n) w s =
    ap (λ t. chain n t (drop 64 s)) (transform-compress w (take 64 s))
    ∙ chain-compress_all n (compress w (take 64 s)) (drop 64 s)

encode_word-octets : (w : ℕ) → encode_word w ≡ octets 4 w
unfolding encode_word octets
encode_word-octets w =
    let two : w / 2 ^ 16 ≡ w / 256 / 256 = omega arith in
    let three : w / 2 ^ 24 ≡ w / 256 / 256 / 256 = omega arith in
    ap
      (λ p.
        bit_and w 255 ∷ (bit_and (w / 256) 255 ∷ (bit_and p 255 ∷ (bit_and (w / 2 ^ 24) 255 ∷ []))))
      two
    ∙ ap
        (λ p.
          bit_and w 255
          ∷ (bit_and (w / 256) 255 ∷ (bit_and (w / 256 / 256) 255 ∷ (bit_and p 255 ∷ []))))
        three

take-replicate : (k m : ℕ) → take {A = ℕ} k (replicate (k + m) 0) ≡ replicate k 0
take-replicate zero m = refl
take-replicate (suc k) m =
    let e : suc k + m ≡ suc (k + m) = omega arith in
    ap (λ n. take {A = ℕ} (suc k) (replicate n 0)) e ∙ ap (◌∷◌ 0) (take-replicate k m)

take-padding : (n z : ℕ) → n ≡ suc z → z ≤ 63 → take n padding ≡ 128 ∷ replicate z 0
take-padding n z e h =
    let whole : 63 ≡ z + (63 - z) = omega arith in
    ap (λ k. take k padding) e
    ∙ ap (λ k. 128 ∷ take {A = ℕ} z (replicate k 0)) whole
    ∙ ap (◌∷◌ 128) (take-replicate z (63 - z))

pad_lem : (len : ℕ) → take (pad_length len) padding ≡ 128 ∷ replicate (zeros_behind len) 0
pad_lem len = take-padding (pad_length len) (zeros_behind len) (ground arith) (omega arith)

two_words : (m n : ℕ) → encode (m ∷ n ∷ []) ≡ octets 4 m ++ octets 4 n
unfolding encode
two_words m n =
    ap (λ t. encode_word m ++ t) (append-nil (encode_word n) ∙ encode_word-octets n)
    ∙ ap (λ t. t ++ octets 4 n) (encode_word-octets m)

four_words :
    (a b c d : ℕ)
    → encode (a ∷ b ∷ c ∷ d ∷ []) ≡ octets 4 a ++ (octets 4 b ++ (octets 4 c ++ octets 4 d))
unfolding encode
four_words a b c d =
    ap (λ t. encode_word a ++ (encode_word b ++ t)) (two_words c d)
    ∙ ap (λ t. encode_word a ++ (t ++ (octets 4 c ++ octets 4 d))) (encode_word-octets b)
    ∙ ap (λ t. t ++ (octets 4 b ++ (octets 4 c ++ octets 4 d))) (encode_word-octets a)

padded-padded_message : (msg : Bytes) → padded msg ≡ padded_message msg
padded-padded_message msg =
    let len = length msg in
    ap (λ t. msg ++ (t ++ length_bytes len)) (pad_lem len)
    ∙ ap (λ t. msg ++ ((128 ∷ replicate (zeros_behind len) 0) ++ t))
        (two_words (len * 8 % 2 ^ 32) (len * 8 / 2 ^ 32 % 2 ^ 32))

-- Cut into blocks, padded and compressed as the source does it, a message has the digest of RFC 1321.
pub md5-rfc1321 : (msg : Bytes) → md5 msg ≡ rfc1321 msg
unfolding rfc1321
md5-rfc1321 msg =
    ap (λ s. encode_words (chain (length s / 64) initial s)) (padded-padded_message msg)
    ∙ ap encode_words
        (chain-compress_all (length (padded_message msg) / 64) first_words (padded_message msg))
    ∙ four_words _ _ _ _
