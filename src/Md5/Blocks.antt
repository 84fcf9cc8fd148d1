-- ===== src/Md5/Blocks.antt =====
-- The loop of `update` over whole blocks.
use studytest.Base.{
  ℕ, zero, suc, ◌+◌, ◌*◌, ◌%◌, ◌^◌, ◌<◌, ◌≤◌, ◌≡◌, refl, sym, ap, ◌∙◌, [], ◌∷◌, ◌++◌, append_assoc,
  true, false, arith, Bytes, length, length-append, length-take, length-drop, take, drop,
  take-append-drop, ltb, leb, if◌then◌else◌, Bool-cases, inl, inr,
}
use studytest.Md5.Transform.{Words, transform}
use studytest.Md5.{blocks}
use studytest.Md5.Spec.{chain, chain_block}

-- the loop without its index, on what is left of the input
unfoldable pub whole_blocks : ℕ → Words → Bytes → Words × Bytes
whole_blocks zero w rest = (w, rest)
whole_blocks (suc n) w rest =
    let more = whole_blocks n (transform w (take 64 rest)) (drop 64 rest) in
    if leb 64 (length rest) then more else (w, rest)

drop-nil : (n : ℕ) → drop {A = ℕ} n [] ≡ []
drop-nil zero = refl
drop-nil (suc n) = refl

drop-add : (m n : ℕ) (s : Bytes) → drop (m + n) s ≡ drop n (drop m s)
drop-add zero n s = let e : zero + n ≡ n = omega arith in ap (λ k. drop k s) e
drop-add (suc m) n [] = drop-nil (suc m + n) ∙ sym (drop-nil n)
drop-add (suc m) n (c ∷ s) =
    let e : suc m + n ≡ suc (m + n) = omega arith in ap (λ k. drop k (c ∷ s)) e ∙ drop-add m n s

-- While `i + 63` does not wrap around, the index stands for what is left.
pub blocks-whole_blocks :
    (f i : ℕ) (w : Words) (input : Bytes)
    → length input + 63 < 2 ^ 32
    → i ≤ length input
    → blocks f i w input ≡ whole_blocks f w (drop i input)
unfolding blocks whole_blocks
blocks-whole_blocks zero i w input small h = refl
blocks-whole_blocks (suc f) i w input small h =
    let left = length-drop i input in
    elim (Bool-cases (leb 64 (length (drop i input)))) [
      | inl more ↦
          let enough : 64 ≤ length (drop i input) = ground arith in
          let test : ltb ((i + 63) % 2 ^ 32) (length input) ≡ true = ground arith in
          let next : (i + 64) % 2 ^ 32 ≡ i + 64 = omega arith in
          let w' = transform w (take 64 (drop i input)) in
          ap (λ b. if b then blocks f ((i + 64) % 2 ^ 32) w' input else (w, drop i input)) test
          ∙ ap (λ k. blocks f k w' input) next
          ∙ blocks-whole_blocks f (i + 64) w' input small (omega arith)
          ∙ ap (whole_blocks f w') (drop-add i 64 input)
          ∙ sym (
              ap (λ b. if b then whole_blocks f w' (drop 64 (drop i input)) else (w, drop i input))
                more)
      | inr last ↦
          let few : length (drop i input) < 64 = ground arith in
          let test : ltb ((i + 63) % 2 ^ 32) (length input) ≡ false = ground arith in
          let w' = transform w (take 64 (drop i input)) in
          ap (λ b. if b then blocks f ((i + 64) % 2 ^ 32) w' input else (w, drop i input)) test
          ∙ sym (
              ap (λ b. if b then whole_blocks f w' (drop 64 (drop i input)) else (w, drop i input))
                last)
    ]

-- The blocks that the loop takes, and the rest that it leaves.
pub blocks_lem :
    (f : ℕ) (w : Words) (s : Bytes)
    → length s ≤ f
    → (mid rest : Bytes) × (k : ℕ) × (s ≡ mid ++ rest)
      × (length mid ≡ 64 * k)
      × (length rest < 64)
      × (whole_blocks f w s ≡ (chain k w mid, rest))
unfolding whole_blocks
blocks_lem zero w [] h = ([], [], 0, refl, omega arith, omega arith, unfold chain in refl)
blocks_lem zero w (c ∷ s) h = absurd (omega arith)
blocks_lem (suc f) w s h = elim (Bool-cases (leb 64 (length s))) [
  | inl more ↦
      let enough : 64 ≤ length s = ground arith in
      let (mid, rest, k, split, in_blocks, short, e) =
        blocks_lem f (transform w (take 64 s)) (drop 64 s)
          (omega (arith, length-drop 64 s, enough)) in
      let first : length (take 64 s) ≡ 64 = omega (arith, length-take 64 s, enough) in
      (
        take 64 s ++ mid,
        rest,
        suc k,
        sym (take-append-drop 64 s)
            ∙ ap (◌++◌ (take 64 s)) split
            ∙ sym (append_assoc (take 64 s) mid rest),
        omega (arith, length-append (take 64 s) mid),
        short,
        rw (more, whole_blocks)
            (e ∙ ap (λ (t : Words). (t, rest)) (sym (chain_block k w (take 64 s) mid first))),
      )
  | inr none_left ↦ (
    [],
    s,
    0,
    refl,
    omega arith,
    ground arith,
    rw (none_left, whole_blocks) (unfold chain in refl),
  )
]
