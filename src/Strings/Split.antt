-- ===== src/Strings/Split.antt =====
-- `explode` of Utils.cpp against joining with the delimiter.
use mathlib.Core.List.{cons-ne-nil}
use studytest.Base.{
  ℕ, zero, suc, ◌+◌, ◌<◌, ◌≡◌, ◌≢◌, refl, sym, ap, ◌∙◌, List, [], ◌∷◌, ◌++◌, append_assoc, true,
  false, some, none, arith, Bytes, length, length-append, take, drop, starts_with, find, All,
  Bool-cases, Option-cases, ◌⊎◌, inl, inr, length-drop,
}
use studytest.Strings.{cut, explode}

-- the parts with the delimiter between them
abbrev pub join : List Bytes → Bytes → Bytes
join [] d = []
join (p ∷ []) d = p
join (p ∷ (q ∷ ps)) d = p ++ (d ++ join (q ∷ ps) d)

-- the delimiter does not occur
abbrev pub Lacks : Bytes → Bytes → Type 0
Lacks d s = find s d ≡ none

starts_with-append : (d s : Bytes) → starts_with d s ≡ true → s ≡ d ++ drop (length d) s
starts_with-append [] s h = refl
starts_with-append (x ∷ d) [] h = cc
starts_with-append (x ∷ d) (c ∷ s) h = ground (arith, starts_with-append d s)

starts_with-take : (d s : Bytes) (n : ℕ) → starts_with d (take n s) ≡ true → starts_with d s ≡ true
starts_with-take [] s n h = refl
starts_with-take (x ∷ d) s zero h = cc
starts_with-take (x ∷ d) [] (suc n) h = cc
starts_with-take (x ∷ d) (c ∷ s) (suc n) h = ground (arith, starts_with-take d s n)

find-cons :
    (c : ℕ) (s d : Bytes) (pos : ℕ)
    → find (c ∷ s) d ≡ some pos
    → ((starts_with d (c ∷ s) ≡ true) × (pos ≡ 0))
      ⊎ ((starts_with d (c ∷ s) ≡ false) × ((p : ℕ) × (find s d ≡ some p) × (pos ≡ suc p)))
find-cons c s d pos h = elim (Bool-cases (starts_with d (c ∷ s))) [
  | inl e ↦ inl (e, ground arith)
  | inr e ↦ elim (Option-cases (find s d)) [
    | inl f ↦ absurd (ground arith)
    | inr (p, f) ↦ inr (e, (p, f, ground arith))
  ]
]

drop-nil : (k : ℕ) → drop {A = ℕ} k [] ≡ []
drop-nil zero = refl
drop-nil (suc k) = refl

starts_with-nil : (d : Bytes) → d ≢ [] → starts_with d [] ≡ false
starts_with-nil [] ne = absurd (ne refl)
starts_with-nil (x ∷ d) ne = refl

find-nil : (d : Bytes) (pos : ℕ) → find [] d ≡ some pos → d ≡ []
find-nil [] pos h = refl
find-nil (x ∷ d) pos h = cc

-- What `find` tells: the delimiter stands at the position, which is inside the string.
find-some :
    (s d : Bytes) (pos k : ℕ)
    → find s d ≡ some pos
    → k ≡ pos + length d
    → (s ≡ take pos s ++ (d ++ drop k s)) × (length (take pos s) ≡ pos)
find-some [] [] pos k h e = let z : pos ≡ 0 = ground arith in rw z (sym (drop-nil k), refl)
find-some [] (x ∷ d) pos k h e = cc
find-some (c ∷ s) d pos k h e = elim (find-cons c s d pos h) [
  | inl (t, z) ↦
      let k' : k ≡ length d = omega arith in rw (z, k') (starts_with-append d (c ∷ s) t, refl)
  | inr (t, (p, f, z)) ↦
      let k' : k ≡ suc (p + length d) = omega arith in
      let (split, len) = find-some s d p (p + length d) f refl in
      rw (z, k') (ap (◌∷◌ c) split, ap suc len)
]

find-take : (s d : Bytes) (pos : ℕ) → d ≢ [] → find s d ≡ some pos → Lacks d (take pos s)
find-take [] d pos ne h = absurd (ne (find-nil d pos h))
find-take (c ∷ s) d pos ne h = elim (find-cons c s d pos h) [
  | inl (t, z) ↦ rw (z, starts_with-nil d ne)
  | inr (t, (p, f, z)) ↦
      rw z (ground (arith, find-take s d p ne f, starts_with-take d (c ∷ s) (suc p)))
]

cut-append : (f : ℕ) (str d : Bytes) (ret : List Bytes) → cut f str d ret ≡ ret ++ cut f str d []
unfolding cut
cut-append zero str d ret = refl
cut-append (suc f) str d ret = elim (Option-cases (find str d)) [
  | inl e ↦ rw (e, cut)
  | inr (pos, e) ↦
      let rest = drop (length (take pos str) + length d) str in
      rw (e, cut)
        (cut-append f rest d (ret ++ take pos str ∷ [])
          ∙ append_assoc ret (take pos str ∷ []) (cut f rest d [])
          ∙ ap (◌++◌ ret) (sym (cut-append f rest d (take pos str ∷ []))))
]

-- one round that finds the delimiter
cut_round :
    (f : ℕ) (str d : Bytes) (pos : ℕ)
    → find str d ≡ some pos
    → cut (suc f) str d [] ≡ take pos str ∷ cut f (drop (length (take pos str) + length d) str) d []
unfolding cut
cut_round f str d pos e =
    rw (e, cut) (cut-append f (drop (length (take pos str) + length d) str) d (take pos str ∷ []))

cut_end : (f : ℕ) (str d : Bytes) → find str d ≡ none → cut (suc f) str d [] ≡ str ∷ []
unfolding cut
cut_end f str d e = rw (e, cut)

cut-cons : (f : ℕ) (str d : Bytes) → (p : Bytes) × (ps : List Bytes) × (cut f str d [] ≡ p ∷ ps)
cut-cons zero str d = (str, [], unfold cut in refl)
cut-cons (suc f) str d = elim (Option-cases (find str d)) [
  | inl e ↦ (str, [], cut_end f str d e)
  | inr (pos, e) ↦ (take pos str, _, cut_round f str d pos e)
]

join-cons :
    (p : Bytes) (ps : List Bytes) (d : Bytes) → ps ≢ [] → join (p ∷ ps) d ≡ p ++ (d ++ join ps d)
join-cons p [] d ne = absurd (ne refl)
join-cons p (q ∷ ps) d ne = refl

cut-ne-nil : (f : ℕ) (str d : Bytes) → cut f str d [] ≢ []
cut-ne-nil f str d e = let (p, ps, c) = cut-cons f str d in cons-ne-nil p ps (sym c ∙ e)

join-cut : (f : ℕ) (str d : Bytes) → join (cut f str d []) d ≡ str
join-cut zero str d = unfold cut in refl
join-cut (suc f) str d = elim (Option-cases (find str d)) [
  | inl e ↦ rw (cut_end f str d e)
  | inr (pos, e) ↦
      let tmp = take pos str in
      let k = length tmp + length d in
      let (split, len) =
        find-some str d pos k e (omega (arith, (find-some str d pos (pos + length d) e refl).1)) in
      ap (λ ps. join ps d) (cut_round f str d pos e)
      ∙ join-cons tmp _ d (cut-ne-nil f (drop k str) d)
      ∙ ap (λ r. tmp ++ (d ++ r)) (join-cut f (drop k str) d)
      ∙ sym split
]

length-pos : (d : Bytes) → d ≢ [] → 0 < length d
length-pos [] ne = absurd (ne refl)
length-pos (x ∷ d) ne = omega arith

cut_shorter :
    (f : ℕ) (str d : Bytes) (pos : ℕ)
    → d ≢ []
    → length str < suc f
    → find str d ≡ some pos
    → length (drop (length (take pos str) + length d) str) < f
cut_shorter f str d pos ne h e =
    let k = pos + length d in
    let (split, len) = find-some str d pos k e refl in
    omega (
      arith,
      len,
      ap length split,
      length-append (take pos str) (d ++ drop k str),
      length-append d (drop k str),
      length-pos d ne,
      length-drop (length (take pos str) + length d) str,
    )

cut-Lacks : (f : ℕ) (str d : Bytes) → d ≢ [] → length str < f → All (Lacks d) (cut f str d [])
cut-Lacks zero str d ne h = absurd (omega arith)
cut-Lacks (suc f) str d ne h = elim (Option-cases (find str d)) [
  | inl e ↦ rw (cut_end f str d e) (e, tt)
  | inr (pos, e) ↦ rw (cut_round f str d pos e) (
    find-take str d pos ne e,
    cut-Lacks f (drop (length (take pos str) + length d) str) d ne (cut_shorter f str d pos ne h e),
  )
]

-- Joining the parts of `explode` with the delimiter gives the string back, for every string that is
-- not empty and every delimiter that is not.
pub join-explode : (s d : Bytes) → s ≢ [] → d ≢ [] → join (explode s d []) d ≡ s
unfolding explode
join-explode [] d hs hd = absurd (hs refl)
join-explode (c ∷ s) [] hs hd = absurd (hd refl)
join-explode (c ∷ s) (x ∷ d) hs hd = join-cut (suc (length (c ∷ s))) (c ∷ s) (x ∷ d)

-- No part of `explode` by a delimiter that is not empty holds the delimiter, so no cut is missed.
pub explode-Lacks : (s d : Bytes) → d ≢ [] → All (Lacks d) (explode s d [])
unfolding explode
explode-Lacks [] d hd = tt
explode-Lacks (c ∷ s) [] hd = absurd (hd refl)
explode-Lacks (c ∷ s) (x ∷ d) hd = cut-Lacks (suc (length (c ∷ s))) (c ∷ s) (x ∷ d) hd (omega arith)

pub find-Lacks :
    (p : Bytes) (c : ℕ) (rest : Bytes)
    → Lacks (c ∷ []) p
    → find (p ++ (c ∷ rest)) (c ∷ []) ≡ some (length p)
find-Lacks [] c rest h = ground arith
find-Lacks (b ∷ p) c rest h = ground (arith, find-Lacks p c rest)

take-length : (p r : Bytes) → take (length p) (p ++ r) ≡ p
take-length [] r = refl
take-length (b ∷ p) r = ap (◌∷◌ b) (take-length p r)

drop-length : (p : Bytes) (c : ℕ) (r : Bytes) (k : ℕ) → k ≡ length p + 1 → drop k (p ++ (c ∷ r)) ≡ r
drop-length [] c r k h = let e : k ≡ 1 = omega arith in rw e
drop-length (b ∷ p) c r k h =
    let e : k ≡ suc (length p + 1) = omega arith in rw e (drop-length p c r (length p + 1) refl)

cut-join :
    (f : ℕ) (ps : List Bytes) (c : ℕ)
    → ps ≢ []
    → All (Lacks (c ∷ [])) ps
    → length (join ps (c ∷ [])) < f
    → cut f (join ps (c ∷ [])) (c ∷ []) [] ≡ ps
cut-join zero ps c ne lacks h = absurd (omega arith)
cut-join (suc f) [] c ne lacks h = absurd (ne refl)
cut-join (suc f) (p ∷ []) c ne lacks h = cut_end f p (c ∷ []) lacks.0
cut-join (suc f) (p ∷ (q ∷ ps)) c ne lacks h =
    let rest = join (q ∷ ps) (c ∷ []) in
    let k = length (take (length p) (p ++ (c ∷ rest))) + 1 in
    let len : length (take (length p) (p ++ (c ∷ rest))) ≡ length p =
      ap length (take-length p (c ∷ rest)) in
    let less : length rest < f = omega (arith, length-append p (c ∷ rest)) in
    cut_round f (p ++ (c ∷ rest)) (c ∷ []) (length p) (find-Lacks p c rest lacks.0)
    ∙ ap (λ t. t ∷ cut f (drop k (p ++ (c ∷ rest))) (c ∷ []) []) (take-length p (c ∷ rest))
    ∙ ap (λ t. p ∷ cut f t (c ∷ []) []) (drop-length p c rest k (omega arith))
    ∙ ap (◌∷◌ p) (cut-join f (q ∷ ps) c (cons-ne-nil q ps) lacks.1 less)

explode-cut :
    (s : Bytes) (c : ℕ) → s ≢ [] → explode s (c ∷ []) [] ≡ cut (suc (length s)) s (c ∷ []) []
unfolding explode
explode-cut [] c ne = absurd (ne refl)
explode-cut (b ∷ s) c ne = refl

-- For a delimiter of one character `explode` undoes joining: parts that lack the character come back,
-- unless the joined string is empty, which has no part.
pub explode-join :
    (ps : List Bytes) (c : ℕ)
    → All (Lacks (c ∷ [])) ps
    → join ps (c ∷ []) ≢ []
    → explode (join ps (c ∷ [])) (c ∷ []) [] ≡ ps
unfolding explode
explode-join [] c lacks ne = absurd (ne refl)
explode-join (p ∷ ps) c lacks ne =
    explode-cut (join (p ∷ ps) (c ∷ [])) c ne
    ∙ cut-join (suc (length (join (p ∷ ps) (c ∷ [])))) (p ∷ ps) c (cons-ne-nil p ps) lacks
        (omega arith)
