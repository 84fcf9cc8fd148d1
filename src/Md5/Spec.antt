-- ===== src/Md5/Spec.antt =====
-- The MD5 of a message, as one padded message cut into blocks: what the object must compute.
use studytest.Base.{
  ◌∙◌, ℕ, zero, suc, ◌+◌, ◌-◌, ◌*◌, ◌/◌, ◌%◌, ◌^◌, ◌≡◌, refl, ap, [], ◌∷◌, ◌++◌, Bytes, length,
  length-drop, take, drop, ltb, if◌then◌else◌, arith, ◌≤◌,
}
use studytest.Md5.Transform.{Words, transform, encode}
use studytest.Md5.{initial, padding}

-- the state after the first `n` blocks of a text
unfoldable pub chain : ℕ → Words → Bytes → Words
chain zero w s = w
chain (suc n) w s = chain n (transform w (take 64 s)) (drop 64 s)

-- how many bytes of padding follow a message of this length
abbrev pub pad_length : ℕ → ℕ
pad_length len = if ltb (len % 64) 56 then 56 - len % 64 else 120 - len % 64

-- the length in bits, modulo 2 ^ 64, in eight bytes
abbrev pub length_bytes : ℕ → Bytes
length_bytes len = encode (len * 8 % 2 ^ 32 ∷ (len * 8 / 2 ^ 32 % 2 ^ 32 ∷ []))

abbrev pub padded : Bytes → Bytes
padded msg = msg ++ (take (pad_length (length msg)) padding ++ length_bytes (length msg))

abbrev pub encode_words : Words → Bytes
encode_words w = encode (w.a ∷ (w.b ∷ (w.c ∷ (w.d ∷ []))))

abbrev pub md5 : Bytes → Bytes
md5 msg = encode_words (chain (length (padded msg) / 64) initial (padded msg))

pub take_exact : (n : ℕ) (p s : Bytes) → length p ≡ n → take n (p ++ s) ≡ p
take_exact zero [] s h = refl
take_exact zero (c ∷ p) s h = absurd (omega arith)
take_exact (suc n) [] s h = absurd (omega arith)
take_exact (suc n) (c ∷ p) s h = ap (◌∷◌ c) (take_exact n p s (omega arith))

pub drop_exact : (n : ℕ) (p s : Bytes) → length p ≡ n → drop n (p ++ s) ≡ s
drop_exact zero [] s h = refl
drop_exact zero (c ∷ p) s h = absurd (omega arith)
drop_exact (suc n) [] s h = absurd (omega arith)
drop_exact (suc n) (c ∷ p) s h = drop_exact n p s (omega arith)

pub chain_block :
    (k : ℕ) (w : Words) (b s : Bytes)
    → length b ≡ 64
    → chain (suc k) w (b ++ s) ≡ chain k (transform w b) s
unfolding chain
chain_block k w b s h = rw (chain, take_exact 64 b s h, drop_exact 64 b s h)

take_within : (n : ℕ) (p s : Bytes) → n ≤ length p → take n (p ++ s) ≡ take n p
take_within zero p s h = refl
take_within (suc n) [] s h = absurd (omega arith)
take_within (suc n) (c ∷ p) s h = ap (◌∷◌ c) (take_within n p s (omega arith))

drop_within : (n : ℕ) (p s : Bytes) → n ≤ length p → drop n (p ++ s) ≡ drop n p ++ s
drop_within zero p s h = refl
drop_within (suc n) [] s h = absurd (omega arith)
drop_within (suc n) (c ∷ p) s h = drop_within n p s (omega arith)

-- The blocks of a first part, and then those behind it.
pub chain-append :
    (n : ℕ) (w : Words) (p s : Bytes) (k : ℕ)
    → length p ≡ 64 * n
    → chain (n + k) w (p ++ s) ≡ chain k (chain n w p) s
unfolding chain
chain-append zero w [] s k h = let e : zero + k ≡ k = omega arith in rw e
chain-append zero w (c ∷ p) s k h = absurd (omega arith)
chain-append (suc n) w p s k h =
    let e : suc n + k ≡ suc (n + k) = omega arith in
    ap (λ t. chain t w (p ++ s)) e
    ∙ ap (λ t. chain (n + k) (transform w t) (drop 64 (p ++ s))) (take_within 64 p s (omega arith))
    ∙ ap (λ t. chain (n + k) (transform w (take 64 p)) t) (drop_within 64 p s (omega arith))
    ∙ chain-append n (transform w (take 64 p)) (drop 64 p) s k (omega (arith, length-drop 64 p))
