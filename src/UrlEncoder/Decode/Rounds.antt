-- ===== src/UrlEncoder/Decode/Rounds.antt =====
-- The rounds of the state machine, from one place in DS_COMMON to the next.
use studytest.Base.{
  ℕ, zero, suc, ◌+◌, ◌*◌, ◌≤◌, ◌≡◌, refl, sym, ap, ◌∙◌, [], ◌∷◌, ◌++◌, append_assoc, some, none,
  Bool, true, false, ◌||◌, leb, arith, Bytes, length, length-append, ltb, ◌==◌, if◌then◌else◌,
}
use studytest.UrlEncoder.Table.{Reply, failed}
use studytest.UrlEncoder.Decode.{
  State, common, escape1, escape2, Decoder, low_digit, dispatch, decoding_loop, finish,
}
use studytest.UrlEncoder.Decode.Spec.{escape_at, opens, plain, decoded, verdict}
use studytest.UrlEncoder.Decode.Steps.{
  at_common, at_escape2, high_digit, high_digit-lt, common_percent, common_plain,
  common_percent_back, escape1_high, escape1_back, escape2_low, escape2_back,
}

pub loop_stops :
    (f destsize : ℕ) (d : Decoder)
    → ltb (length d.out + 4) destsize ≡ false
    → decoding_loop f destsize d ≡ d
unfolding decoding_loop
loop_stops zero destsize d h = refl
loop_stops (suc f) destsize d h = ground arith

pub loop_ends :
    (f destsize : ℕ) (passed out : Bytes) (de : ℕ) (nonesc argu : Bool)
    → let d = at_common passed [] out de nonesc argu in decoding_loop f destsize d ≡ d
unfolding decoding_loop
loop_ends zero destsize passed out de nonesc argu = refl
loop_ends (suc f) destsize passed out de nonesc argu = refl

-- one round with room in the buffer
loop_round :
    (f destsize : ℕ) (state : State) (passed : Bytes) (c : ℕ) (s out : Bytes) (de : ℕ)
    (nonesc argu : Bool)
    → ltb (length out + 4) destsize ≡ true
    → let d : Decoder = record {
      state = state;
      passed = passed;
      ahead = c ∷ s;
      out = out;
      deescape = de;
      nonescback = nonesc;
      ifargu = argu;
    } in
      decoding_loop (suc f) destsize d ≡ decoding_loop f destsize (dispatch state d (c ∷ s))
unfolding decoding_loop
loop_round f destsize state passed c s out de nonesc argu h = rw h

pub verdict_full :
    (destsize : ℕ) (out t : Bytes)
    → ltb (length out + 4) destsize ≡ false
    → verdict destsize (out ++ t) ≡ failed
verdict_full destsize out t h = ground (arith, length-append out t)

-- the state machine is right on the strings of at most `n` bytes
abbrev pub Decodes : ℕ → Type 0
Decodes n =
    (f destsize : ℕ) (passed s out : Bytes) (de : ℕ) (argu : Bool)
    → length s ≤ n
    → 4 * length s + 1 ≤ f
    → finish destsize (decoding_loop f destsize (at_common passed s out de false argu))
      ≡ verdict destsize (out ++ decoded argu 0 s)

escape_at_other : (c : ℕ) (s : Bytes) → (c == b'%') ≡ false → escape_at (c ∷ s) ≡ none
unfolding escape_at
escape_at_other c [] h = refl
escape_at_other c (x ∷ []) h = refl
escape_at_other c (x ∷ (y ∷ s)) h = rw h

-- a byte that begins no escape
decoded-plain :
    (argu : Bool) (c : ℕ) (s : Bytes)
    → escape_at (c ∷ s) ≡ none
    → decoded argu 0 (c ∷ s) ≡ plain argu c ++ decoded (if opens c then true else argu) 0 s
unfolding decoded
decoded-plain argu c s h = rw (h, decoded)

module _ (n destsize : ℕ) (ih : Decodes n) (out : Bytes)
    (room : ltb (length out + 4) destsize ≡ true) where
  -- The rounds at the first bytes have written `t`, and `ih` does the rest.
  pub goes_on :
      (f : ℕ) (passed s t all : Bytes) (de : ℕ) (argu : Bool) (r : Reply)
      → r ≡ finish destsize (decoding_loop f destsize (at_common passed s (out ++ t) de false argu))
      → all ≡ t ++ decoded argu 0 s
      → length s ≤ n
      → 4 * length s + 1 ≤ f
      → r ≡ verdict destsize (out ++ all)
  goes_on f passed s t all de argu r e split hn hf =
      e
      ∙ ih f destsize passed s (out ++ t) de argu hn hf
      ∙ ap (verdict destsize) (append_assoc out t (decoded argu 0 s) ∙ ap (◌++◌ out) (sym split))

  -- a byte that is no `%`
  pub decodes_plain :
      (f : ℕ) (passed : Bytes) (c : ℕ) (s : Bytes) (de : ℕ) (argu : Bool)
      → (c == b'%') ≡ false
      → length s ≤ n
      → 4 * length s + 1 ≤ f
      → finish destsize
          (decoding_loop (suc f) destsize (at_common passed (c ∷ s) out de false argu))
        ≡ verdict destsize (out ++ decoded argu 0 (c ∷ s))
  unfolding dispatch
  decodes_plain f passed c s de argu h hn hf =
      goes_on f (c ∷ passed) s (plain argu c) _ de _ _
        (ap (finish destsize) (
          loop_round f destsize common passed c s out de false argu room
          ∙ ap (decoding_loop f destsize) (common_plain passed out c s de argu h)))
        (decoded-plain argu c s (escape_at_other c s h)) hn hf

  -- a `%` that begins no escape, once DS_COMMON takes it for itself
  pub decodes_percent :
      (f : ℕ) (passed s : Bytes) (de : ℕ) (nonesc argu : Bool)
      → (nonesc || leb (length (b'%' ∷ s)) 2) ≡ true
      → escape_at (b'%' ∷ s) ≡ none
      → length s ≤ n
      → 4 * length s + 1 ≤ f
      → finish destsize
          (decoding_loop (suc f) destsize (at_common passed (b'%' ∷ s) out de nonesc argu))
        ≡ verdict destsize (out ++ decoded argu 0 (b'%' ∷ s))
  unfolding dispatch plain
  decodes_percent f passed s de nonesc argu back h hn hf =
      goes_on f (b'%' ∷ passed) s (b'%' ∷ []) _ de argu _
        (ap (finish destsize) (
          loop_round f destsize common passed b'%' s out de nonesc argu room
          ∙ ap (decoding_loop f destsize) (common_percent_back passed out s de nonesc argu back)))
        (decoded-plain argu b'%' s h) hn hf

  -- DS_COMMON and DS_ESCAPE1 at a `%` whose first digit will do
  opens_escape :
      (f : ℕ) (passed : Bytes) (h l : ℕ) (r : Bytes) (de x : ℕ) (argu : Bool)
      → high_digit h l ≡ some x
      → decoding_loop
          (suc (suc f))
          destsize
          (at_common passed (b'%' ∷ (h ∷ (l ∷ r))) out de false argu)
        ≡ decoding_loop f destsize (at_escape2 (h ∷ (b'%' ∷ passed)) (l ∷ r) out (x * 16) argu)
  unfolding dispatch
  opens_escape f passed h l r de x argu e =
      loop_round (suc f) destsize common passed b'%' (h ∷ (l ∷ r)) out de false argu room
      ∙ ap (decoding_loop (suc f) destsize) (common_percent passed out h l r de argu)
      ∙ loop_round f destsize escape1 (b'%' ∷ passed) h (l ∷ r) out de false argu room
      ∙ ap (decoding_loop f destsize) (escape1_high (b'%' ∷ passed) out h l r de x argu e)

  -- a `%` whose first digit will not do: walked back by one
  pub back_one :
      (f : ℕ) (passed : Bytes) (h l : ℕ) (r : Bytes) (de : ℕ) (argu : Bool)
      → high_digit h l ≡ none
      → decoding_loop
          (suc (suc f))
          destsize
          (at_common passed (b'%' ∷ (h ∷ (l ∷ r))) out de false argu)
        ≡ decoding_loop f destsize (at_common passed (b'%' ∷ (h ∷ (l ∷ r))) out de true argu)
  unfolding dispatch
  back_one f passed h l r de argu e =
      loop_round (suc f) destsize common passed b'%' (h ∷ (l ∷ r)) out de false argu room
      ∙ ap (decoding_loop (suc f) destsize) (common_percent passed out h l r de argu)
      ∙ loop_round f destsize escape1 (b'%' ∷ passed) h (l ∷ r) out de false argu room
      ∙ ap (decoding_loop f destsize) (escape1_back b'%' passed out h l r de argu e)

  -- a `%` whose second digit will not do: walked back by two
  pub back_two :
      (f : ℕ) (passed : Bytes) (h l : ℕ) (r : Bytes) (de x : ℕ) (argu : Bool)
      → high_digit h l ≡ some x
      → low_digit l ≡ none
      → decoding_loop
          (suc (suc (suc f)))
          destsize
          (at_common passed (b'%' ∷ (h ∷ (l ∷ r))) out de false argu)
        ≡ decoding_loop f destsize (at_common passed (b'%' ∷ (h ∷ (l ∷ r))) out (x * 16) true argu)
  unfolding dispatch
  back_two f passed h l r de x argu e e' =
      opens_escape (suc f) passed h l r de x argu e
      ∙ loop_round f destsize escape2 (h ∷ (b'%' ∷ passed)) l r out (x * 16) false argu room
      ∙ ap (decoding_loop f destsize) (escape2_back b'%' h passed out l r (x * 16) argu e')

  -- an escape
  pub reads_escape :
      (f : ℕ) (passed : Bytes) (h l : ℕ) (r : Bytes) (de x y : ℕ) (argu : Bool)
      → high_digit h l ≡ some x
      → low_digit l ≡ some y
      → decoding_loop
          (suc (suc (suc f)))
          destsize
          (at_common passed (b'%' ∷ (h ∷ (l ∷ r))) out de false argu)
        ≡ decoding_loop f destsize (
            at_common
              (l ∷ (h ∷ (b'%' ∷ passed)))
              r
              (out ++ (x * 16 + y) ∷ [])
              (x * 16 + y)
              false
              argu)
  unfolding dispatch
  reads_escape f passed h l r de x y argu e e' =
      opens_escape (suc f) passed h l r de x argu e
      ∙ loop_round f destsize escape2 (h ∷ (b'%' ∷ passed)) l r out (x * 16) false argu room
      ∙ ap (decoding_loop f destsize)
          (escape2_low (h ∷ (b'%' ∷ passed)) out l r x y argu (high_digit-lt h l x e) e')
