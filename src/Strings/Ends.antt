-- ===== src/Strings/Ends.antt =====
-- Trimming a string that ends in known characters.
use mathlib.Core.List.{reverse-append, reverse-cons, reverse-reverse}
use studytest.Base.{
  ℕ, ◌≡◌, ◌≢◌, refl, sym, ap, ◌∙◌, [], ◌∷◌, ◌++◌, append-nil, reverse, Bool, true, false, Bytes,
  has,
}
use studytest.Strings.{
  leaves, ltrim_loop, rtrim_loop, then_rtrim, then_rtrim_checked, is_char, trim_char, trim, rtrim,
}
use studytest.Strings.Trim.{Drops}

-- The loop from the end drops a suffix, and stops at a character that it keeps.
rtrim_loop-append :
    (p : ℕ → Bool) (post t : Bytes) (x : ℕ)
    → Drops p post
    → p x ≡ false
    → rtrim_loop p (post ++ (x ∷ t)) ≡ leaves (reverse (x ∷ t))
unfolding rtrim_loop
rtrim_loop-append p [] t x h k = rw k
rtrim_loop-append p (c ∷ post) t x (hc, h) k = rw hc (rtrim_loop-append p post t x h k)

reverse-snoc : (t : Bytes) (x : ℕ) → reverse (t ++ x ∷ []) ≡ x ∷ reverse t
reverse-snoc t x = reverse-append t (x ∷ [])

rtrim_loop-end :
    (p : ℕ → Bool) (t post : Bytes) (x : ℕ)
    → Drops p (reverse post)
    → p x ≡ false
    → rtrim_loop p (reverse ((t ++ x ∷ []) ++ post)) ≡ leaves (t ++ x ∷ [])
rtrim_loop-end p t post x h k =
    ap (rtrim_loop p)
      (reverse-append (t ++ x ∷ []) post ∙ ap (◌++◌ (reverse post)) (reverse-snoc t x))
    ∙ rtrim_loop-append p (reverse post) (reverse t) x h k
    ∙ ap leaves (reverse-cons x (reverse t) ∙ ap (λ r. r ++ x ∷ []) (reverse-reverse t))

first_stays :
    (t : Bytes) (c ch : ℕ)
    → is_char ch c ≡ false
    → trim_char ((c ∷ t) ++ ch ∷ []) ch ≡ rtrim_loop (is_char ch) (reverse ((c ∷ t) ++ ch ∷ []))
unfolding trim_char ltrim_loop then_rtrim
first_stays t c ch hc = rw hc

-- `trim` by a character takes the last one off, if the first one and the one before the last stay.
pub trim_char-end :
    (s t : Bytes) (c ch x : ℕ)
    → s ≡ c ∷ t
    → (mid : Bytes) → s ≡ mid ++ x ∷ []
    → is_char ch c ≡ false
    → is_char ch x ≡ false
    → is_char ch ch ≡ true
    → trim_char (s ++ ch ∷ []) ch ≡ leaves s
unfolding trim_char ltrim_loop then_rtrim
trim_char-end s t c ch x e mid e' hc hx hch =
    ap (λ r. trim_char (r ++ ch ∷ []) ch) e
    ∙ first_stays t c ch hc
    ∙ ap (λ r. rtrim_loop (is_char ch) (reverse (r ++ ch ∷ []))) (sym e ∙ e')
    ∙ rtrim_loop-end (is_char ch) mid (ch ∷ []) x (hch, tt) hx
    ∙ ap leaves (sym e')

-- `rtrim` by a list takes a listed suffix off.
pub rtrim-end :
    (t post list : Bytes) (x : ℕ)
    → Drops (has list) (reverse post)
    → has list x ≡ false
    → list ≢ []
    → rtrim ((t ++ x ∷ []) ++ post) list ≡ leaves (t ++ x ∷ [])
unfolding rtrim
rtrim-end t post [] x h k ne = absurd (ne refl)
rtrim-end [] post (d ∷ ds) x h k ne = rtrim_loop-end (has (d ∷ ds)) [] post x h k
rtrim-end (c ∷ t) post (d ∷ ds) x h k ne = rtrim_loop-end (has (d ∷ ds)) (c ∷ t) post x h k

first_kept :
    (t : Bytes) (c d : ℕ) (ds : Bytes)
    → has (d ∷ ds) c ≡ false
    → trim (c ∷ t) (d ∷ ds) ≡ rtrim_loop (has (d ∷ ds)) (reverse (c ∷ t))
unfolding trim ltrim_loop then_rtrim_checked
first_kept t c d ds hc = rw hc

-- `trim` by a list takes a listed suffix off a string that begins and ends with characters not listed.
pub trim-end :
    (s t post list : Bytes) (c x : ℕ)
    → s ≡ c ∷ t
    → (mid : Bytes) → s ≡ mid ++ x ∷ []
    → Drops (has list) (reverse post)
    → has list c ≡ false
    → has list x ≡ false
    → list ≢ []
    → trim (s ++ post) list ≡ leaves s
trim-end s t post [] c x e mid e' h hc hx ne = absurd (ne refl)
trim-end s t post (d ∷ ds) c x e mid e' h hc hx ne =
    ap (λ r. trim (r ++ post) (d ∷ ds)) e
    ∙ first_kept (t ++ post) c d ds hc
    ∙ ap (λ r. rtrim_loop (has (d ∷ ds)) (reverse (r ++ post))) (sym e ∙ e')
    ∙ rtrim_loop-end (has (d ∷ ds)) mid post x h hx
    ∙ ap leaves (sym e')

-- `trim` by a list takes one listed character off in front.
pub trim-front :
    (s t list : Bytes) (lead c x : ℕ)
    → s ≡ c ∷ t
    → (mid : Bytes) → s ≡ mid ++ x ∷ []
    → has list lead ≡ true
    → has list c ≡ false
    → has list x ≡ false
    → trim (lead ∷ s) list ≡ leaves s
unfolding trim ltrim_loop then_rtrim_checked
trim-front s t [] lead c x e mid e' hl hc hx = cc
trim-front s t (d ∷ ds) lead c x e mid e' hl hc hx =
    ap (λ r. trim (lead ∷ r) (d ∷ ds)) e
    ∙ kept_front
    ∙ ap (λ r. rtrim_loop (has (d ∷ ds)) (reverse r))
        (sym e ∙ e' ∙ sym (append-nil (mid ++ x ∷ [])))
    ∙ rtrim_loop-end (has (d ∷ ds)) mid [] x tt hx
    ∙ ap leaves (sym e')
  where
    kept_front : trim (lead ∷ (c ∷ t)) (d ∷ ds) ≡ rtrim_loop (has (d ∷ ds)) (reverse (c ∷ t))
    kept_front = rw hl (rw hc refl)
