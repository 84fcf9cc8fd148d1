-- ===== src/Sql/Marks.antt =====
-- The marks of a statement, as the server counts them when it prepares one: those that stand neither in
-- quotes nor in the ticks of a name.
use mathlib.Core.Path.{subst}
use studytest.Base.{
  ℕ, ◌+◌, ◌≡◌, refl, sym, ap, ◌∙◌, [], ◌∷◌, ◌++◌, true, false, Bytes, codes, ◌==◌, if◌then◌else◌,
  has, All, arith, length, List,
}
use studytest.Strings.{is_char}
use studytest.Sql.{marks}

-- where a statement is read: outside, in a text, in a name
pub data Place : Type 0 where
  plain : Place
  quoted : Place
  ticked : Place

unfoldable pub move : Place → ℕ → Place
move plain c = if c == b'\'' then quoted else if c == b'`' then ticked else plain
move quoted c = if c == b'\'' then plain else quoted
move ticked c = if c == b'`' then plain else ticked

unfoldable pub mark_at : Place → ℕ → ℕ
mark_at plain c = if c == b'?' then 1 else 0
mark_at quoted c = 0
mark_at ticked c = 0

unfoldable pub after : Place → Bytes → Place
unfolding move
after p [] = p
after p (c ∷ s) = after (move p c) s

unfoldable pub marks_from : Place → Bytes → ℕ
unfolding mark_at move
marks_from p [] = 0
marks_from p (c ∷ s) = mark_at p c + marks_from (move p c) s

after-append : (p : Place) (s t : Bytes) → after p (s ++ t) ≡ after (after p s) t
unfolding after
after-append p [] t = refl
after-append p (c ∷ s) t = after-append (move p c) s t

marks_from-append :
    (p : Place) (s t : Bytes) → marks_from p (s ++ t) ≡ marks_from p s + marks_from (after p s) t
unfolding marks_from after
marks_from-append p [] t = omega arith
marks_from-append p (c ∷ s) t = omega (arith, marks_from-append (move p c) s t)

-- A part of a statement that begins and ends outside of texts and names, with so many marks.
pub record IsBalanced (n : ℕ) (s : Bytes) : Type 0 where
  pub closed : after plain s ≡ plain
  pub counted : marks_from plain s ≡ n

pub append-IsBalanced :
    (n k : ℕ) (s t : Bytes) → IsBalanced n s → IsBalanced k t → IsBalanced (n + k) (s ++ t)
append-IsBalanced n k s t h v = record {
  closed = after-append plain s t ∙ ap (λ p. after p t) h.closed ∙ v.closed;
  counted =
      omega (
        arith,
        marks_from-append plain s t,
        ap (λ p. marks_from p t) h.closed,
        h.counted,
        v.counted,
      );
}

-- a name of a column or a table, without the tick that would end it
abbrev pub IsColumn : Bytes → Type 0
IsColumn = All (λ c. (c == b'`') ≡ false)

ticked_stays : (c : ℕ) → (c == b'`') ≡ false → move ticked c ≡ ticked
unfolding move
ticked_stays c h = rw h refl

pub after-ticked : (s t : Bytes) → IsColumn s → after ticked (s ++ t) ≡ after ticked t
unfolding after move
after-ticked [] t h = refl
after-ticked (c ∷ s) t (hc, h) = ap (λ p. after p (s ++ t)) (ticked_stays c hc) ∙ after-ticked s t h

pub marks_from-ticked :
    (s t : Bytes) → IsColumn s → marks_from ticked (s ++ t) ≡ marks_from ticked t
unfolding marks_from mark_at move
marks_from-ticked [] t h = refl
marks_from-ticked (c ∷ s) t (hc, h) =
    omega (arith, ap (λ p. marks_from p (s ++ t)) (ticked_stays c hc), marks_from-ticked s t h)

-- a name in its ticks
pub name-IsBalanced : (s : Bytes) → IsColumn s → IsBalanced 0 (codes "`" ++ (s ++ codes "`"))
unfolding after marks_from mark_at move
name-IsBalanced s h = record {
  closed = after-ticked s (codes "`") h;
  counted = omega (arith, marks_from-ticked s (codes "`") h);
}

-- A character that neither is a mark nor opens or closes anything.
pub record IsNeutral (c : ℕ) : Type 0 where
  pub no_mark : (c == b'?') ≡ false
  pub no_quote : (c == b'\'') ≡ false
  pub no_tick : (c == b'`') ≡ false

move-neutral : (p : Place) (c : ℕ) → IsNeutral c → (move p c ≡ p) × (mark_at p c ≡ 0)
unfolding move mark_at
move-neutral plain c h = (rw h.no_quote (rw h.no_tick refl), rw h.no_mark refl)
move-neutral quoted c h = (rw h.no_quote refl, refl)
move-neutral ticked c h = (rw h.no_tick refl, refl)

neutral : (p : Place) (s : Bytes) → All IsNeutral s → (after p s ≡ p) × (marks_from p s ≡ 0)
unfolding after marks_from
neutral p [] h = (refl, refl)
neutral p (c ∷ s) (hc, h) =
    let (there, none) = move-neutral p c hc in
    let (back, rest) = neutral p s h in
    (ap (λ q. after q s) there ∙ back, omega (arith, none, rest, ap (λ q. marks_from q s) there))

-- What is left of a statement when neutral characters are taken off at its ends.
pub trimmed-IsBalanced :
    (n : ℕ) (pre r post : Bytes)
    → All IsNeutral pre
    → All IsNeutral post
    → IsBalanced n (pre ++ (r ++ post))
    → IsBalanced n r
trimmed-IsBalanced n pre r post hpre hpost v =
    let (a, m) = neutral plain pre hpre in
    let (a', m') = neutral (after plain r) post hpost in
    record {
      closed =
          sym a'
          ∙ sym (after-append plain r post)
          ∙ ap (λ p. after p (r ++ post)) (sym a)
          ∙ sym (after-append plain pre (r ++ post))
          ∙ v.closed;
      counted = omega (
        arith,
        v.counted,
        marks_from-append plain pre (r ++ post),
        m,
        ap (λ p. marks_from p (r ++ post)) a,
        marks_from-append plain r post,
        m',
      );
    }

pub comma-IsNeutral : (c : ℕ) → is_char b',' c ≡ true → IsNeutral c
unfolding is_char
comma-IsNeutral c h = record {
  no_mark = ground arith;
  no_quote = ground arith;
  no_tick = ground arith;
}

pub and-IsNeutral : (c : ℕ) → has (codes "AND ") c ≡ true → IsNeutral c
and-IsNeutral c h = record {
  no_mark = ground arith;
  no_quote = ground arith;
  no_tick = ground arith;
}

-- the loop over the values of an IN
pub marks-IsBalanced :
    (n : ℕ) (vs : List Bytes) (out : Bytes)
    → IsBalanced n out
    → IsBalanced (n + length vs) (marks vs out)
unfolding marks after marks_from mark_at move
marks-IsBalanced n [] out h = subst (λ k. IsBalanced k out) (omega arith) h
marks-IsBalanced n (v ∷ vs) out h =
    subst (λ k. IsBalanced k (marks vs (out ++ codes "?,"))) (omega arith)
      (marks-IsBalanced (n + 1) vs (out ++ codes "?,")
        (append-IsBalanced n 1 out (codes "?,") h (record { closed = refl; counted = refl })))
