-- ===== src/Strings/Cuts.antt =====
-- What a trimming call that leaves a string has taken off it.
use studytest.Base.{
  ℕ, ◌<◌, ◌≡◌, sym, ap, ◌∙◌, [], ◌∷◌, ◌++◌, Bool, true, reverse, append_assoc, All-append, Bytes,
  has, append-nil, inl, inr,
}
use studytest.Strings.{
  Outcome, leaves, then_rtrim, ltrim_loop, rtrim_loop, is_char, trim_char, rtrim,
}
use studytest.Strings.Trim.{Drops, ltrim_loop_lem, rtrim_loop-RightTrimmed, not-is_char-zero}

-- Where a string is left, the original has dropped characters around it.
abbrev pub Cut : (ℕ → Bool) → Bytes → Outcome → Type 0
Cut p s o =
    (r : Bytes)
    → o ≡ leaves r
    → (pre post : Bytes) × (s ≡ pre ++ (r ++ post)) × Drops p pre × Drops p post

leaves_inj : {a b : Bytes} → leaves a ≡ leaves b → a ≡ b
leaves_inj e = cc

rtrim_loop-Cut : (p : ℕ → Bool) (s : Bytes) → Cut p s (rtrim_loop p (reverse s))
rtrim_loop-Cut p s r e = elim (rtrim_loop-RightTrimmed p s) [
  | inl (e', drops) ↦ cc
  | inr (r', post, e', split, drops, kept, ne) ↦
      ([], post, split ∙ ap (λ t. t ++ post) (leaves_inj (sym e' ∙ e)), tt, drops)
]

nothing-Cut : (p : ℕ → Bool) (s : Bytes) → Cut p s (leaves s)
nothing-Cut p s r e = ([], [], sym (append-nil s) ∙ ap (λ t. t ++ []) (leaves_inj e), tt, tt)

then_rtrim-Cut :
    (p : ℕ → Bool) (s pre rest : Bytes) (o : Outcome)
    → o ≡ leaves rest
    → s ≡ pre ++ rest
    → Drops p pre
    → Cut p s (then_rtrim p o)
unfolding then_rtrim
then_rtrim-Cut p s pre rest o eo split drops r e =
    let (pre', post, split', drops', dropped) =
      rtrim_loop-Cut p rest r (sym (ap (then_rtrim p) eo) ∙ e) in
    (
      pre ++ pre',
      post,
      split ∙ ap (◌++◌ pre) split' ∙ sym (append_assoc pre pre' (r ++ post)),
      All-append (λ c. p c ≡ true) pre pre' drops drops',
      dropped,
    )

pub trim_char-Cut : (s : Bytes) (ch : ℕ) → 0 < ch → Cut (is_char ch) s (trim_char s ch)
unfolding trim_char
trim_char-Cut [] ch h = nothing-Cut (is_char ch) []
trim_char-Cut (c ∷ s) ch h =
    let (pre, rest, e, split, drops, kept) =
      ltrim_loop_lem (is_char ch) (c ∷ s) (not-is_char-zero ch h) in
    then_rtrim-Cut (is_char ch) (c ∷ s) pre rest (ltrim_loop (is_char ch) (c ∷ s)) e split drops

pub rtrim-Cut : (s list : Bytes) → Cut (has list) s (rtrim s list)
unfolding rtrim
rtrim-Cut [] list = nothing-Cut (has list) []
rtrim-Cut (c ∷ s) [] = nothing-Cut (has []) (c ∷ s)
rtrim-Cut (c ∷ s) (d ∷ ds) = rtrim_loop-Cut (has (d ∷ ds)) (c ∷ s)
