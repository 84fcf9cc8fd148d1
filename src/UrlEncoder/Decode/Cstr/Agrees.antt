-- ===== src/UrlEncoder/Decode/Cstr/Agrees.antt =====
-- The decoder that stops at a NUL makes the same rounds as the one that is given a length.
use studytest.Base.{
  ℕ, zero, suc, ◌+◌, ◌*◌, ◌≡◌, ◌≢◌, refl, ap, ◌∙◌, [], ◌∷◌, ◌++◌, some, true, false, ◌&&◌, ◌||◌,
  not, arith, Bytes, length, leb, ltb, ◌==◌, if◌then◌else◌, Bool-cases, Option-cases, inl, inr,
}
use studytest.UrlEncoder.Encode.{IsText}
use studytest.UrlEncoder.Decode.{
  State, common, escape1, escape2, Decoder, step_back, step_back_two, next_not_zero, low_digit,
  on_common, on_escape1, on_escape2, dispatch, some_ahead, decoding_loop, start, finish, decoding,
}
use studytest.UrlEncoder.Decode.Cstr.{
  nul_at, on_common_cstr, next_not_zero_cstr, on_escape1_cstr, dispatch_cstr, decoding_cstr_loop,
  text_length, decoding_cstr,
}

-- the same decoder, with a NUL and more memory behind its source
abbrev extended : Bytes → Decoder → Decoder
extended mem d = record d { ahead = d.ahead ++ (0 ∷ mem) }

nul-short :
    (c : ℕ) (s mem : Bytes)
    → IsText s
    → (nul_at 0 (s ++ (0 ∷ mem)) || nul_at 1 (s ++ (0 ∷ mem))) ≡ leb (length (c ∷ s)) 2
nul-short c [] mem h = refl
nul-short c (x ∷ []) mem (hx, h) = rw hx
nul-short c (x ∷ (y ∷ s)) mem (hx, (hy, h)) =
    let long : leb (length (c ∷ (x ∷ (y ∷ s)))) 2 ≡ false = ground arith in rw (hx, hy, long)

next_not_zero-text :
    (s mem : Bytes) → IsText s → next_not_zero_cstr (s ++ (0 ∷ mem)) ≡ next_not_zero s
unfolding next_not_zero
next_not_zero-text [] mem h = refl
next_not_zero-text (x ∷ s) mem (hx, h) = rw hx

-- no NUL before the pointer or behind it
abbrev Clean : Decoder → Type 0
Clean d = IsText d.passed × IsText d.ahead

-- The decoder of one kind makes the step of the other, and no NUL comes in.
abbrev Follows : Bytes → Decoder → Decoder → Type 0
Follows mem d' d = (d' ≡ extended mem d) × Clean d

on_common-Follows :
    (d : Decoder) (c : ℕ) (s mem : Bytes)
    → IsText d.passed
    → IsText (c ∷ s)
    → Follows mem (on_common_cstr (extended mem d) c (s ++ (0 ∷ mem))) (on_common d c s)
unfolding on_common_cstr on_common
on_common-Follows d c s mem hp (hc, h) = rw (nul-short c s mem h) (elim (Bool-cases (leb c 0x20)) [
  | inl low ↦ elim (Bool-cases (c == b'\t' || (c == b'\r' || c == b'\n'))) [
    | inl skipped ↦ rw (low, skipped) (refl, ((hc, hp), h))
    | inr kept ↦ rw (low, kept) (refl, ((hc, hp), h))
  ]
  | inr high ↦ elim (Bool-cases (c == b'%')) [
    | inl percent ↦ elim (Bool-cases (d.nonescback || leb (length (c ∷ s)) 2)) [
      | inl itself ↦ rw (high, percent, itself) (refl, ((hc, hp), h))
      | inr opens ↦ rw (high, percent, opens) (refl, ((hc, hp), h))
    ]
    | inr other ↦ elim (Bool-cases (c == b'\\')) [
      | inl backslash ↦ rw (high, other, backslash) (refl, ((hc, hp), h))
      | inr plain ↦ rw (high, other, plain) (refl, ((hc, hp), h))
    ]
  ]
])

step_back-Follows :
    (d : Decoder) (ps mem : Bytes)
    → Clean d
    → IsText ps
    → Follows mem (step_back (extended mem d) ps) (step_back d ps)
unfolding step_back
step_back-Follows d [] mem h hs = (refl, h)
step_back-Follows d (p ∷ ps) mem (hp, ha) (hc, hs) = (refl, (hs, (hc, ha)))

step_back_two-Follows :
    (d : Decoder) (ps mem : Bytes)
    → Clean d
    → IsText ps
    → Follows mem (step_back_two (extended mem d) ps) (step_back_two d ps)
unfolding step_back_two
step_back_two-Follows d [] mem h hs = (refl, h)
step_back_two-Follows d (p ∷ []) mem h hs = (refl, h)
step_back_two-Follows d (p ∷ (q ∷ ps)) mem (hp, ha) (hc, (hd, hs)) = (refl, (hs, (hd, (hc, ha))))

on_escape1-Follows :
    (d : Decoder) (c : ℕ) (s mem : Bytes)
    → Clean d
    → IsText (c ∷ s)
    → Follows mem (on_escape1_cstr (extended mem d) c (s ++ (0 ∷ mem))) (on_escape1 d c s)
unfolding on_escape1_cstr on_escape1
on_escape1-Follows d c s mem (hp, ha) (hc, h) =
    rw (next_not_zero-text s mem h) (elim (Bool-cases (leb b'A' c && leb c b'F')) [
      | inl upper ↦ rw upper (refl, ((hc, hp), h))
      | inr k ↦ elim (Bool-cases (leb b'a' c && leb c b'f')) [
        | inl lower ↦ rw (k, lower) (refl, ((hc, hp), h))
        | inr k' ↦ elim (Bool-cases (leb b'3' c && leb c b'9')) [
          | inl digit ↦ rw (k, k', digit) (refl, ((hc, hp), h))
          | inr k'' ↦ elim (Bool-cases (c == b'2' && next_not_zero s)) [
            | inl two ↦ rw (k, k', k'', two) (refl, ((hc, hp), h))
            | inr none_left ↦
                rw (k, k', k'', none_left)
                  (step_back-Follows (record d { state = common; nonescback = true }) d.passed mem
                    (hp, ha) hp)
          ]
        ]
      ]
    ])

on_escape2-Follows :
    (d : Decoder) (c : ℕ) (s mem : Bytes)
    → Clean d
    → IsText (c ∷ s)
    → Follows mem (on_escape2 (extended mem d) c (s ++ (0 ∷ mem))) (on_escape2 d c s)
unfolding on_escape2
on_escape2-Follows d c s mem (hp, ha) (hc, h) = elim (Option-cases (low_digit c)) [
  | inr (digit, e) ↦ rw (e, on_escape2) (refl, ((hc, hp), h))
  | inl e ↦
      rw (e, on_escape2)
        (step_back_two-Follows (record d { state = common; nonescback = true }) d.passed mem
          (hp, ha) hp)
]

dispatch-Follows :
    (state : State) (d : Decoder) (c : ℕ) (s mem : Bytes)
    → Clean d
    → IsText (c ∷ s)
    → Follows mem
        (dispatch_cstr state (extended mem d) ((c ∷ s) ++ (0 ∷ mem)))
        (dispatch state d (c ∷ s))
unfolding dispatch_cstr dispatch
dispatch-Follows common d c s mem (hp, ha) h = on_common-Follows d c s mem hp h
dispatch-Follows escape1 d c s mem hd h = on_escape1-Follows d c s mem hd h
dispatch-Follows escape2 d c s mem hd h = on_escape2-Follows d c s mem hd h

-- One round, with what the rounds behind it do.
round-extended :
    (f destsize : ℕ) (d : Decoder) (a mem : Bytes)
    → Clean d
    → IsText a
    → ((t : Decoder)
        → Clean t
        → decoding_cstr_loop f destsize (extended mem t)
          ≡ extended mem (decoding_loop f destsize t))
    → (if not (nul_at 0 (a ++ (0 ∷ mem))) && ltb (length d.out + 4) destsize
        then decoding_cstr_loop f destsize (dispatch_cstr d.state (extended mem d) (a ++ (0 ∷ mem)))
        else extended mem d)
      ≡ extended mem (
          if some_ahead a && ltb (length d.out + 4) destsize
          then decoding_loop f destsize (dispatch d.state d a)
          else d)
unfolding some_ahead
round-extended f destsize d [] mem hd h more = refl
round-extended f destsize d (c ∷ s) mem hd (hc, hs) more =
    let (e, clean) = dispatch-Follows d.state d c s mem hd (hc, hs) in
    elim (Bool-cases (ltb (length d.out + 4) destsize)) [
      | inl room ↦ rw (hc, room) (ap (decoding_cstr_loop f destsize) e ∙ more _ clean)
      | inr full ↦ rw (hc, full)
    ]

loop-extended :
    (f destsize : ℕ) (d : Decoder) (mem : Bytes)
    → Clean d
    → decoding_cstr_loop f destsize (extended mem d) ≡ extended mem (decoding_loop f destsize d)
unfolding decoding_cstr_loop decoding_loop
loop-extended zero destsize d mem h = refl
loop-extended (suc f) destsize d mem h =
    round-extended f destsize d d.ahead mem h h.1 (λ t k. loop-extended f destsize t mem k)

text_length-text : (s mem : Bytes) → IsText s → text_length (s ++ (0 ∷ mem)) ≡ length s
unfolding text_length
text_length-text [] mem h = refl
text_length-text (c ∷ s) mem (hc, hs) = rw (hc, text_length-text s mem hs)

-- The two decoders agree: on a C string that is not empty the one that looks for the NUL does what the
-- other does on the bytes before it, whatever stands behind it in memory.
pub decoding_cstr-eq :
    (s mem : Bytes) (destsize : ℕ)
    → s ≢ []
    → IsText s
    → decoding_cstr (some (s ++ (0 ∷ mem))) destsize ≡ decoding (some s) destsize
unfolding decoding_cstr decoding finish
decoding_cstr-eq [] mem destsize ne h = absurd (ne refl)
decoding_cstr-eq (c ∷ s) mem destsize ne h =
    ap
      (λ n.
        finish destsize (decoding_cstr_loop (4 * n + 1) destsize (start ((c ∷ s) ++ (0 ∷ mem)))))
      (text_length-text (c ∷ s) mem h)
    ∙ ap (finish destsize)
        (loop-extended (4 * length (c ∷ s) + 1) destsize (start (c ∷ s)) mem (tt, h))
