-- ===== src/Strings/Parts.antt =====
-- Splitting what is put together from a prefix and two known parts, as paths and lines are.
use mathlib.Core.List.{cons-ne-nil}
use studytest.Base.{
  ℕ, ◌≡◌, ◌≢◌, refl, sym, ap, ◌∙◌, List, [], ◌∷◌, ◌++◌, append_assoc, false, Bytes, ◌==◌, arith,
  All, All-append,
}
use studytest.Strings.{explode}
use studytest.Strings.Split.{join, Lacks, join-explode, explode-Lacks, explode-join}

-- A string none of whose characters is the delimiter.
pub Lacks-All : (s : Bytes) (c : ℕ) → All (λ b. (c == b) ≡ false) s → Lacks (c ∷ []) s
Lacks-All [] c h = refl
Lacks-All (b ∷ s) c (hb, h) = rw (hb, Lacks-All s c h)

pub Lacks-append :
    (a b : Bytes) (c : ℕ) → Lacks (c ∷ []) a → Lacks (c ∷ []) b → Lacks (c ∷ []) (a ++ b)
Lacks-append [] b c ha hb = hb
Lacks-append (x ∷ a) b c ha hb = ground (arith, Lacks-append a b c)

pub join-append :
    (ps : List Bytes) (q : Bytes) (qs : List Bytes) (d : Bytes)
    → ps ≢ []
    → join (ps ++ (q ∷ qs)) d ≡ join ps d ++ (d ++ join (q ∷ qs) d)
join-append [] q qs d ne = absurd (ne refl)
join-append (p ∷ []) q qs d ne = refl
join-append (p ∷ (p' ∷ ps)) q qs d ne =
    ap (λ t. p ++ (d ++ t)) (join-append (p' ∷ ps) q qs d (cons-ne-nil _ _))
    ∙ ap (◌++◌ p) (sym (append_assoc d (join (p' ∷ ps) d) (d ++ join (q ∷ qs) d)))
    ∙ sym (append_assoc p (d ++ join (p' ∷ ps) d) (d ++ join (q ∷ qs) d))

-- Every string is a joining of parts without the delimiter, of at least one part.
abbrev Parts : Bytes → ℕ → Type 0
Parts s c = (ps : List Bytes) × (ps ≢ []) × All (Lacks (c ∷ [])) ps × (join ps (c ∷ []) ≡ s)

string-Parts : (s : Bytes) (c : ℕ) → Parts s c
string-Parts [] c = ([] ∷ [], cons-ne-nil _ _, (refl, tt), refl)
string-Parts (b ∷ s) c =
    let e = join-explode (b ∷ s) (c ∷ []) (cons-ne-nil _ _) (cons-ne-nil _ _) in
    (
      explode (b ∷ s) (c ∷ []) [],
      (λ none_left. cons-ne-nil b s (sym e ∙ ap (λ ps. join ps (c ∷ [])) none_left)),
      explode-Lacks (b ∷ s) (c ∷ []) (cons-ne-nil _ _),
      e,
    )

-- Behind whatever prefix, the last two parts come out last.
pub explode_two :
    (s a b : Bytes) (c : ℕ)
    → Lacks (c ∷ []) a
    → Lacks (c ∷ []) b
    → (ps : List Bytes) × (ps ≢ [])
      × (explode (s ++ (c ∷ (a ++ (c ∷ b)))) (c ∷ []) [] ≡ ps ++ (a ∷ (b ∷ [])))
explode_two s a b c ha hb =
    let (ps, ne, lacks, e) = string-Parts s c in
    let whole : join (ps ++ (a ∷ (b ∷ []))) (c ∷ []) ≡ s ++ (c ∷ (a ++ (c ∷ b))) =
      join-append ps a (b ∷ []) (c ∷ []) ne ∙ ap (λ t. t ++ (c ∷ (a ++ (c ∷ b)))) e in
    (
      ps,
      ne,
      ap (λ t. explode t (c ∷ []) []) (sym whole)
          ∙ explode-join (ps ++ (a ∷ (b ∷ []))) c
              (All-append (Lacks (c ∷ [])) ps (a ∷ (b ∷ [])) lacks (ha, (hb, tt)))
              (λ e'. not_nil s (c ∷ (a ++ (c ∷ b))) (cons-ne-nil _ _) (sym whole ∙ e')),
    )
  where
    not_nil : (s r : Bytes) → r ≢ [] → s ++ r ≢ []
    not_nil [] r ne e = ne e
    not_nil (x ∷ s) r ne e = cons-ne-nil _ _ e
