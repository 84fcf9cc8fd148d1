-- ===== src/UrlEncoder/Decode/Refine.antt =====
-- The state machine of `decoding` computes what `decoded` tells.
use studytest.Base.{
  append-nil, ℕ, zero, suc, ◌+◌, ◌-◌, ◌*◌, ◌≤◌, ◌≡◌, ◌≢◌, refl, ap, ◌∙◌, [], ◌∷◌, ◌++◌, some, none,
  Bool, true, false, arith, Bytes, length, ltb, ◌==◌, Bool-cases, Option-cases, inl, inr,
}
use studytest.UrlEncoder.Decode.{low_digit, decoding_loop, finish, decoding}
use studytest.UrlEncoder.Decode.Spec.{verdict, escape, escape_at, decoded}
use studytest.UrlEncoder.Decode.Steps.{at_common, high_digit, escape-digits}
use studytest.UrlEncoder.Decode.Rounds.{
  loop_stops, loop_ends, verdict_full, Decodes, decodes_plain, decodes_percent, back_one, back_two,
  reads_escape, goes_on,
}

-- a `%` in the source
abbrev DecodesPercent : ℕ → Bytes → Type 0
DecodesPercent n s =
    (f destsize : ℕ) (passed out : Bytes) (de : ℕ) (argu : Bool)
    → ltb (length out + 4) destsize ≡ true
    → 4 * length (b'%' ∷ s) + 1 ≤ f
    → finish destsize (decoding_loop f destsize (at_common passed (b'%' ∷ s) out de false argu))
      ≡ verdict destsize (out ++ decoded argu 0 (b'%' ∷ s))

percent_short : (n : ℕ) (s : Bytes) → Decodes n → length s ≤ n → length s ≤ 1 → DecodesPercent n s
unfolding escape_at
percent_short n [] ih hn short f destsize passed out de argu room hf =
    let e : f ≡ suc (f - 1) = omega arith in
    rw e (
      decodes_percent n destsize ih out room (f - 1) passed [] de false argu refl refl hn
        (omega arith))
percent_short n (h ∷ []) ih hn short f destsize passed out de argu room hf =
    let e : f ≡ suc (f - 1) = omega arith in
    rw e (
      decodes_percent n destsize ih out room (f - 1) passed (h ∷ []) de false argu refl refl hn
        (omega arith))
percent_short n (h ∷ (l ∷ r)) ih hn short f destsize passed out de argu room hf =
    absurd (omega arith)

module _ (n h l : ℕ) (r : Bytes) (ih : Decodes n) (hn : length (h ∷ (l ∷ r)) ≤ n) where
  percent_back_one : high_digit h l ≡ none → DecodesPercent n (h ∷ (l ∷ r))
  unfolding escape_at
  percent_back_one e f destsize passed out de argu room hf =
      let k : f ≡ suc (suc (suc (f - 3))) = omega arith in
      let no_escape : escape h l ≡ none = escape-digits h l ∙ rw e in
      rw k (
        ap (finish destsize) (back_one n destsize ih out room (suc (f - 3)) passed h l r de argu e)
        ∙ decodes_percent n destsize ih out room (f - 3) passed (h ∷ (l ∷ r)) de true argu refl
            no_escape hn (omega arith))

  percent_back_two :
      (x : ℕ) → high_digit h l ≡ some x → low_digit l ≡ none → DecodesPercent n (h ∷ (l ∷ r))
  unfolding escape_at
  percent_back_two x e e' f destsize passed out de argu room hf =
      let k : f ≡ suc (suc (suc (suc (f - 4)))) = omega arith in
      let no_escape : escape h l ≡ none = escape-digits h l ∙ rw (e, e') in
      rw k (
        ap (finish destsize)
          (back_two n destsize ih out room (suc (f - 4)) passed h l r de x argu e e')
        ∙ decodes_percent n destsize ih out room (f - 4) passed (h ∷ (l ∷ r)) (x * 16) true argu
            refl no_escape hn (omega arith))

  percent_escape :
      (x y : ℕ) → high_digit h l ≡ some x → low_digit l ≡ some y → DecodesPercent n (h ∷ (l ∷ r))
  unfolding escape_at decoded
  percent_escape x y e e' f destsize passed out de argu room hf =
      let k : f ≡ suc (suc (suc (f - 3))) = omega arith in
      let found : escape h l ≡ some (x * 16 + y) = escape-digits h l ∙ rw (e, e') in
      rw k (
        goes_on n destsize ih out room (f - 3) (l ∷ (h ∷ (b'%' ∷ passed))) r ((x * 16 + y) ∷ [])
          (decoded argu 0 (b'%' ∷ (h ∷ (l ∷ r)))) (x * 16 + y) argu _
          (ap (finish destsize)
            (reads_escape n destsize ih out room (f - 3) passed h l r de x y argu e e'))
          (rw (found, decoded)) (omega arith) (omega arith))

Decodes-percent : (n : ℕ) (s : Bytes) → Decodes n → length s ≤ n → DecodesPercent n s
Decodes-percent n [] ih hn = percent_short n [] ih hn (omega arith)
Decodes-percent n (h ∷ []) ih hn = percent_short n (h ∷ []) ih hn (omega arith)
Decodes-percent n (h ∷ (l ∷ r)) ih hn = elim (Option-cases (high_digit h l)) [
  | inl e ↦ percent_back_one n h l r ih hn e
  | inr (x, e) ↦ elim (Option-cases (low_digit l)) [
    | inl e' ↦ percent_back_two n h l r ih hn x e e'
    | inr (y, e') ↦ percent_escape n h l r ih hn x y e e'
  ]
]

decodes_full :
    (f destsize : ℕ) (passed s out : Bytes) (de : ℕ) (argu : Bool)
    → ltb (length out + 4) destsize ≡ false
    → finish destsize (decoding_loop f destsize (at_common passed s out de false argu))
      ≡ verdict destsize (out ++ decoded argu 0 s)
unfolding finish
decodes_full f destsize passed s out de argu full = rw (
  loop_stops f destsize (at_common passed s out de false argu) full,
  verdict_full destsize out (decoded argu 0 s) full,
  full,
)

decodes_nil :
    (f destsize : ℕ) (passed out : Bytes) (de : ℕ) (argu : Bool)
    → finish destsize (decoding_loop f destsize (at_common passed [] out de false argu))
      ≡ verdict destsize (out ++ decoded argu 0 [])
unfolding finish decoded
decodes_nil f destsize passed out de argu =
    rw (loop_ends f destsize passed out de false argu, append-nil out)

decodes : (n : ℕ) → Decodes n
decodes n f destsize passed [] out de argu hn hf = decodes_nil f destsize passed out de argu
decodes zero f destsize passed (c ∷ s) out de argu hn hf = absurd (omega arith)
decodes (suc n) f destsize passed (c ∷ s) out de argu hn hf =
    elim (Bool-cases (ltb (length out + 4) destsize)) [
      | inr full ↦ decodes_full f destsize passed (c ∷ s) out de argu full
      | inl room ↦ elim (Bool-cases (c == b'%')) [
        | inl percent ↦
            let z : c ≡ b'%' = ground arith in
            rw z (
              Decodes-percent n s (decodes n) (omega arith) f destsize passed out de argu room
                (omega arith))
        | inr other ↦
            let k : f ≡ suc (f - 1) = omega arith in
            rw k (
              decodes_plain n destsize (decodes n) out room (f - 1) passed c s de argu other
                (omega arith) (omega arith))
      ]
    ]

-- `decoding` of a source of at least one byte always ends, and replies with the decoded text
-- exactly if that text and its NUL leave at least four bytes of the buffer over; otherwise it
-- returns -1.
pub decoding-decoded :
    (s : Bytes) (destsize : ℕ)
    → s ≢ []
    → decoding (some s) destsize ≡ verdict destsize (decoded false 0 s)
unfolding decoding
decoding-decoded [] destsize ne = absurd (ne refl)
decoding-decoded (c ∷ s) destsize ne =
    decodes (length (c ∷ s)) (4 * length (c ∷ s) + 1) destsize [] (c ∷ s) [] 0 false (omega arith)
      (omega arith)
