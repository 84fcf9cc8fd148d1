-- ===== src/Strings/Trim.antt =====
-- What the trimming functions of Utils.cpp leave, and when they read outside the string.
use mathlib.Core.List.{reverse-cons, reverse-append, reverse-reverse, cons-ne-nil}
use studytest.Base.{
  ℕ, ◌<◌, ◌≡◌, ◌≢◌, ◌↔◌, refl, sym, ap, ◌∙◌, [], ◌∷◌, ◌++◌, reverse, append_assoc, append-nil, Bool,
  true, false, arith, Bytes, has, All, All-append, Bool-cases, ◌⊎◌, inl, inr,
}
use studytest.Strings.{
  Outcome, leaves, strays, ltrim_loop, rtrim_loop, then_rtrim, then_rtrim_checked, is_char, trim,
  trim_char, rtrim,
}

module _ (dropped : ℕ → Bool) where
  abbrev pub Drops : Bytes → Type 0
  Drops = All (λ c. dropped c ≡ true)

  -- a string that does not begin with a dropped character
  abbrev pub Kept : Bytes → Type 0
  Kept [] = Unit
  Kept (c ∷ s) = dropped c ≡ false

  Drops-reverse : (s : Bytes) → Drops s → Drops (reverse s)
  Drops-reverse [] h = h
  Drops-reverse (c ∷ s) (hc, hs) =
      rw (reverse-cons c s) (All-append _ (reverse s) (c ∷ []) (Drops-reverse s hs) (hc, tt))

  pub ltrim_loop_lem :
      (s : Bytes)
      → dropped 0 ≡ false
      → (pre rest : Bytes) × (ltrim_loop dropped s ≡ leaves rest)
        × (s ≡ pre ++ rest)
        × Drops pre
        × Kept rest
  unfolding ltrim_loop
  ltrim_loop_lem [] h = ([], [], rw h, refl, tt, tt)
  ltrim_loop_lem (c ∷ s) h = elim (Bool-cases (dropped c)) [
    | inl d ↦
        let (pre, rest, e, split, drops, kept) = ltrim_loop_lem s h in
        (c ∷ pre, rest, rw d e, ap (◌∷◌ c) split, (d, drops), kept)
    | inr k ↦ ([], c ∷ s, rw k, refl, tt, k)
  ]

  rtrim_loop_lem :
      (t : Bytes)
      → ((rtrim_loop dropped t ≡ strays) × Drops t)
        ⊎ ((pre rest : Bytes) × (rtrim_loop dropped t ≡ leaves (reverse rest))
            × (t ≡ pre ++ rest)
            × Drops pre
            × Kept rest
            × (rest ≢ []))
  unfolding rtrim_loop
  rtrim_loop_lem [] = inl (refl, tt)
  rtrim_loop_lem (c ∷ s) = elim (Bool-cases (dropped c)) [
    | inl d ↦ elim (rtrim_loop_lem s) [
      | inl (e, drops) ↦ inl (rw d e, (d, drops))
      | inr (pre, rest, e, split, drops, kept, ne) ↦
          inr (c ∷ pre, rest, rw d e, ap (◌∷◌ c) split, (d, drops), kept, ne)
    ]
    | inr k ↦ inr ([], c ∷ s, rw k, refl, tt, k, cons-ne-nil c s)
  ]

  -- the loop at a string that is read forwards
  abbrev pub RightTrimmed : Bytes → Outcome → Type 0
  RightTrimmed s o =
      ((o ≡ strays) × Drops s)
      ⊎ ((r post : Bytes) × (o ≡ leaves r)
          × (s ≡ r ++ post)
          × Drops post
          × Kept (reverse r)
          × (r ≢ []))

  reverse-ne-nil : (s : Bytes) → s ≢ [] → reverse s ≢ []
  reverse-ne-nil s h e = h (sym (reverse-reverse s) ∙ ap reverse e)

  pub rtrim_loop-RightTrimmed : (s : Bytes) → RightTrimmed s (rtrim_loop dropped (reverse s))
  rtrim_loop-RightTrimmed s = elim (rtrim_loop_lem (reverse s)) [
    | inl (e, drops) ↦ inl (e, rw reverse-reverse at (Drops-reverse (reverse s) drops))
    | inr (pre, rest, e, split, drops, kept, ne) ↦ inr (
      reverse rest,
      reverse pre,
      e,
      sym (reverse-reverse s) ∙ ap reverse split ∙ reverse-append pre rest,
      Drops-reverse pre drops,
      rw reverse-reverse kept,
      reverse-ne-nil rest ne,
    )
  ]

Kept-nil : (t : Bytes) → Kept (has []) t
Kept-nil [] = tt
Kept-nil (c ∷ t) = refl

Kept-append : (p : ℕ → Bool) (r post : Bytes) → Kept p (r ++ post) → Kept p r
Kept-append p [] post h = tt
Kept-append p (c ∷ r) post h = h

-- The result of trimming at both ends by the characters that `dropped` tells.
abbrev pub Trimmed : (ℕ → Bool) → Bytes → Outcome → Type 0
Trimmed dropped s o =
    (pre r post : Bytes) × (o ≡ leaves r)
    × (s ≡ pre ++ (r ++ post))
    × Drops dropped pre
    × Drops dropped post
    × Kept dropped r
    × Kept dropped (reverse r)

then_rtrim_checked-Trimmed :
    (p : ℕ → Bool) (rest : Bytes)
    → Kept p rest
    → Trimmed p rest (then_rtrim_checked p (leaves rest))
unfolding then_rtrim_checked
then_rtrim_checked-Trimmed p [] k = ([], [], [], refl, refl, tt, tt, tt, tt)
then_rtrim_checked-Trimmed p (c ∷ s) k = elim (rtrim_loop-RightTrimmed p (c ∷ s)) [
  | inl (e, drops) ↦ cc (drops.0, k)
  | inr (r, post, e, split, drops, kept, ne) ↦
      ([], r, post, e, split, tt, drops, Kept-append p r post (rw (← split) k), kept)
]

-- `trim(string&, const string& list)` with no NUL in the list always returns: it takes off a prefix
-- and a suffix of listed characters, and what it leaves neither begins nor ends with one.
pub trim_lem : (s list : Bytes) → has list 0 ≡ false → Trimmed (has list) s (trim s list)
unfolding trim
trim_lem [] list h = ([], [], [], refl, refl, tt, tt, tt, tt)
trim_lem (c ∷ s) [] h =
    ([], c ∷ s, [], refl, sym (append-nil (c ∷ s)), tt, tt, refl, Kept-nil (reverse (c ∷ s)))
trim_lem (c ∷ s) (d ∷ ds) h =
    let (pre, rest, e, split, drops, kept) = ltrim_loop_lem (has (d ∷ ds)) (c ∷ s) h in
    let (pre', r, post, e', split', drops', drops'', kept', kept'') =
      then_rtrim_checked-Trimmed (has (d ∷ ds)) rest kept in
    (
      pre ++ pre',
      r,
      post,
      rw e e',
      split ∙ ap (◌++◌ pre) split' ∙ sym (append_assoc pre pre' (r ++ post)),
      All-append _ pre pre' drops drops',
      drops'',
      kept',
      kept'',
    )

-- `rtrim(string&, const string& list)` on a string that is not empty: if every character is listed,
-- it reads the character before the first one; otherwise it leaves a string that is not empty and
-- does not end with a listed character, and has taken off a suffix of listed ones.
rtrim_lem : (s list : Bytes) → s ≢ [] → RightTrimmed (has list) s (rtrim s list)
unfolding rtrim
rtrim_lem [] list ne = absurd (ne refl)
rtrim_lem (c ∷ s) [] ne =
    inr (c ∷ s, [], refl, sym (append-nil (c ∷ s)), tt, Kept-nil (reverse (c ∷ s)), ne)
rtrim_lem (c ∷ s) (d ∷ ds) ne = rtrim_loop-RightTrimmed (has (d ∷ ds)) (c ∷ s)

Kept-Drops : (p : ℕ → Bool) (s : Bytes) → Drops p s → Kept p s → s ≡ []
Kept-Drops p [] drops kept = refl
Kept-Drops p (c ∷ s) drops kept = cc (drops.0, kept)

Drops-append : (p : ℕ → Bool) (s t : Bytes) → Drops p (s ++ t) → Drops p t
Drops-append p [] t h = h
Drops-append p (c ∷ s) t h = Drops-append p s t h.1

then_rtrim-strays :
    (p : ℕ → Bool) (rest : Bytes)
    → Kept p rest
    → (then_rtrim p (leaves rest) ≡ strays) ↔ (rest ≡ [])
unfolding then_rtrim
then_rtrim-strays p [] k = (λ _. refl, λ _. unfold rtrim_loop in refl)
then_rtrim-strays p (c ∷ s) k = elim (rtrim_loop-RightTrimmed p (c ∷ s)) [
  | inl (e, drops) ↦ cc (drops.0, k)
  | inr (r, post, e, split, drops, kept, ne) ↦ (λ h. cc, λ h. cc)
]

then_rtrim-Drops :
    (p : ℕ → Bool) (s pre rest : Bytes)
    → ltrim_loop p s ≡ leaves rest
    → s ≡ pre ++ rest
    → Drops p pre
    → Kept p rest
    → (then_rtrim p (ltrim_loop p s) ≡ strays) ↔ Drops p s
then_rtrim-Drops p s pre rest e split drops kept =
    let (there, back) = then_rtrim-strays p rest kept in
    (
      λ t.
          let no_rest : rest ≡ [] = there (sym (ap (then_rtrim p) e) ∙ t) in
          rw (split, no_rest, append-nil pre) drops,
      λ d.
          let all : Drops p (pre ++ rest) = rw split at d in
          ap (then_rtrim p) e ∙ back (Kept-Drops p rest (Drops-append p pre rest all) kept),
    )

pub not-is_char-zero : (ch : ℕ) → 0 < ch → is_char ch 0 ≡ false
unfolding is_char
not-is_char-zero ch h = ground arith

-- `trim(string&, int ch)`, for a character that is not NUL, reads the character before the first one
-- exactly when the string is not empty and holds nothing but that character.
trim_char-strays_iff :
    (s : Bytes) (ch : ℕ) → 0 < ch → (trim_char s ch ≡ strays) ↔ ((s ≢ []) × Drops (is_char ch) s)
unfolding trim_char
trim_char-strays_iff [] ch h = (λ e. cc, λ d. absurd (d.0 refl))
trim_char-strays_iff (c ∷ s) ch h =
    let (pre, rest, e, split, drops, kept) =
      ltrim_loop_lem (is_char ch) (c ∷ s) (not-is_char-zero ch h) in
    let (there, back) = then_rtrim-Drops (is_char ch) (c ∷ s) pre rest e split drops kept in
    (λ t. (cons-ne-nil c s, there t), λ d. back d.1)

-- `trim` by a list with no NUL leaves a string.
pub trim-leaves : (s list : Bytes) → has list 0 ≡ false → (r : Bytes) × (trim s list ≡ leaves r)
trim-leaves s list h = let (pre, r, post, e, _, _, _, _, _) = trim_lem s list h in (r, e)
