-- ===== src/UrlEncoder/Decode/Fits.antt =====
-- The decoder writes inside the buffer.
use Prim.Native.Nat.{bit_or}
use studytest.Base.{
  true, ap, ℕ, zero, suc, ◌+◌, ◌≤◌, ◌≡◌, [], ◌∷◌, ◌++◌, arith, Bytes, length, length-append,
  Option-cases, inl, inr,
}
use studytest.UrlEncoder.Table.{escaped}
use studytest.UrlEncoder.Decode.{
  State, common, escape1, escape2, Decoder, step_back, step_back_two, on_common, on_escape1,
  low_digit, on_escape2, dispatch, decoding_loop, start,
}

length-escaped : (c : ℕ) → length (escaped c) ≡ 3
unfolding escaped
length-escaped c = omega arith

out-step_back : (d : Decoder) (ps : Bytes) → (step_back d ps).out ≡ d.out
unfolding step_back
out-step_back d [] = λ _. d.out
out-step_back d (p ∷ ps) = λ _. d.out

out-step_back_two : (d : Decoder) (ps : Bytes) → (step_back_two d ps).out ≡ d.out
unfolding step_back_two
out-step_back_two d [] = λ _. d.out
out-step_back_two d (p ∷ []) = λ _. d.out
out-step_back_two d (p ∷ (q ∷ ps)) = λ _. d.out

length-append_one : (out : Bytes) (b : ℕ) → length (out ++ b ∷ []) ≡ length out + 1
length-append_one out b = omega (arith, length-append out (b ∷ []))

common_writes : (d : Decoder) (c : ℕ) (s : Bytes) → length (on_common d c s).out ≤ length d.out + 3
unfolding on_common
common_writes d c s = ground (
  arith,
  length-append d.out (escaped c),
  length-escaped c,
  length-append_one d.out c,
  length-append_one d.out b'\\',
  length-append_one d.out b'/',
)

escape1_writes :
    (d : Decoder) (c : ℕ) (s : Bytes) → length (on_escape1 d c s).out ≤ length d.out + 3
unfolding on_escape1
escape1_writes d c s =
    ground (arith, out-step_back (record d { state = common; nonescback = true }) d.passed)

escape2_writes :
    (d : Decoder) (c : ℕ) (s : Bytes) → length (on_escape2 d c s).out ≤ length d.out + 3
unfolding on_escape2
escape2_writes d c s = elim (Option-cases (low_digit c)) [
  | inl e ↦
      rw (e, on_escape2)
        (omega (
          arith,
          ap length (out-step_back_two (record d { state = common; nonescback = true }) d.passed),
        ))
  | inr (y, e) ↦ rw (e, on_escape2) (omega (arith, length-append d.out (bit_or d.deescape y ∷ [])))
]

dispatch_writes :
    (st : State) (d : Decoder) (s : Bytes) → length (dispatch st d s).out ≤ length d.out + 3
unfolding dispatch
dispatch_writes st d [] = omega arith
dispatch_writes common d (c ∷ s) = common_writes d c s
dispatch_writes escape1 d (c ∷ s) = escape1_writes d c s
dispatch_writes escape2 d (c ∷ s) = escape2_writes d c s

loop_fits :
    (f destsize : ℕ) (d : Decoder)
    → length d.out + 2 ≤ destsize
    → length (decoding_loop f destsize d).out + 2 ≤ destsize
unfolding decoding_loop
loop_fits zero destsize d h = h
loop_fits (suc f) destsize d h =
    ground
      (arith, dispatch_writes d.state d d.ahead, loop_fits f destsize (dispatch d.state d d.ahead))

-- However many rounds the loop of `decoding` makes, on whatever bytes, what it has written and a NUL
-- stay inside a buffer of two bytes or more.
decoding_loop-fits :
    (f destsize : ℕ) (s : Bytes)
    → 2 ≤ destsize
    → length (decoding_loop f destsize (start s)).out + 2 ≤ destsize
decoding_loop-fits f destsize s h = loop_fits f destsize (start s) (omega arith)
