-- ===== src/Base/Maps/Order.antt =====
-- The order of the keys, and look-ups behind a change.
use studytest.Base.{
  ◌≡◌, refl, sym, ap, ◌∙◌, List, [], ◌∷◌, ◌++◌, Option, none, some, true, false, Bytes, same,
  same_iff, All, arith, Bool-cases, inl, inr, if◌then◌else◌,
}
use studytest.Base.Maps.{less, get, put_new, put}

less_trans : (a b c : Bytes) → less a b ≡ true → less b c ≡ true → less a c ≡ true
unfolding less
less_trans [] [] c h k = cc
less_trans [] (y ∷ b) [] h k = cc
less_trans [] (y ∷ b) (z ∷ c) h k = refl
less_trans (x ∷ a) [] c h k = cc
less_trans (x ∷ a) (y ∷ b) [] h k = cc
less_trans (x ∷ a) (y ∷ b) (z ∷ c) h k = ground (arith, less_trans a b c)

less_total : (a b : Bytes) → same b a ≡ false → less a b ≡ false → less b a ≡ true
unfolding less
less_total [] [] h k = cc
less_total [] (y ∷ b) h k = cc
less_total (x ∷ a) [] h k = refl
less_total (x ∷ a) (y ∷ b) h k = ground (arith, less_total a b)

less_irrefl : (a : Bytes) → less a a ≡ false
unfolding less
less_irrefl [] = refl
less_irrefl (x ∷ a) = ground (arith, less_irrefl a)

less-other : (a b : Bytes) → less a b ≡ true → same a b ≡ false
less-other a b h = elim (Bool-cases (same a b)) [
  | inl e ↦
      let itself : less a a ≡ true = ap (less a) ((same_iff a b).0 e) ∙ h in
      let never = less_irrefl a in cc
  | inr n ↦ n
]

less_asym : (a b : Bytes) → less a b ≡ true → less b a ≡ false
less_asym a b h = elim (Bool-cases (less b a)) [
  | inl e ↦ let itself = less_trans a b a h e in let never = less_irrefl a in cc
  | inr n ↦ n
]

module _ {ℓ} {A : Type ℓ} where
  -- the key is before all of a map
  abbrev pub IsBefore : Bytes → List (Bytes × A) → Type 0
  IsBefore k = All (λ e. less k e.0 ≡ true)

  abbrev pub IsSorted : List (Bytes × A) → Type 0
  IsSorted [] = Unit
  IsSorted ((k, v) ∷ m) = IsBefore k m × IsSorted m

  IsBefore-trans :
      (i k : Bytes) (m : List (Bytes × A)) → less i k ≡ true → IsBefore k m → IsBefore i m
  IsBefore-trans i k [] h b = tt
  IsBefore-trans i k ((j, v) ∷ m) h (hj, b) = (less_trans i k j h hj, IsBefore-trans i k m h b)

  put_new-IsBefore :
      (i k : Bytes) (v : A) (m : List (Bytes × A))
      → less i k ≡ true
      → IsBefore i m
      → IsBefore i (put_new k v m)
  unfolding put_new
  put_new-IsBefore i k v [] h b = (h, tt)
  put_new-IsBefore i k v ((j, w) ∷ m) h (hj, b) = elim (Bool-cases (same j k)) [
    | inl e ↦ rw e (hj, b)
    | inr n ↦ elim (Bool-cases (less k j)) [
      | inl first ↦ rw n (rw first (h, (hj, b)))
      | inr later ↦ rw n (rw later (hj, put_new-IsBefore i k v m h b))
    ]
  ]

  pub put_new-IsSorted :
      (k : Bytes) (v : A) (m : List (Bytes × A)) → IsSorted m → IsSorted (put_new k v m)
  unfolding put_new
  put_new-IsSorted k v [] h = (tt, tt)
  put_new-IsSorted k v ((j, w) ∷ m) (b, h) = elim (Bool-cases (same j k)) [
    | inl e ↦ rw e (b, h)
    | inr n ↦ elim (Bool-cases (less k j)) [
      | inl first ↦ rw n (rw first ((first, IsBefore-trans k j m first b), (b, h)))
      | inr later ↦
          rw n (
            rw later
              (put_new-IsBefore j k v m (less_total k j n later) b, put_new-IsSorted k v m h))
    ]
  ]

  before-get : (k : Bytes) (m : List (Bytes × A)) → IsBefore k m → get k m ≡ none
  unfolding get
  before-get k [] b = refl
  before-get k ((j, v) ∷ m) (hj, b) = elim (Bool-cases (same j k)) [
    | inl e ↦
        let itself : less k k ≡ true = rw ((same_iff j k).0 e) at hj in
        let never = less_irrefl k in cc
    | inr n ↦ rw n (before-get k m b)
  ]

  -- what a look-up finds behind an `insert`
  abbrev pub kept_or : Option A → Option A → Option A
  kept_or none new = new
  kept_or (some w) new = some w

  pub kept_or-none : (o : Option A) → kept_or o none ≡ o
  kept_or-none none = refl
  kept_or-none (some w) = refl

  pub get-put_new :
      (i k : Bytes) (v : A) (m : List (Bytes × A))
      → IsSorted m
      → get i (put_new k v m) ≡ kept_or (get i m) (if same k i then some v else none)
  unfolding get put_new
  get-put_new i k v [] h = refl
  get-put_new i k v ((j, w) ∷ m) (b, h) = elim (Bool-cases (same j k)) [
    | inl e ↦ rw e (elim (Bool-cases (same j i)) [
      | inl f ↦ rw f refl
      | inr f ↦
          let other : same k i ≡ false = ap (λ t. same t i) (sym ((same_iff j k).0 e)) ∙ f in
          rw f (rw other (sym (kept_or-none (get i m))))
    ])
    | inr n ↦ elim (Bool-cases (less k j)) [
      | inl first ↦ rw n (
          rw first (elim (Bool-cases (same k i)) [
            | inl f ↦
                let absent : get k ((j, w) ∷ m) ≡ none =
                  before-get k ((j, w) ∷ m) (first, IsBefore-trans k j m first b) in
                let gone : get i ((j, w) ∷ m) ≡ none =
                  ap (λ t. get t ((j, w) ∷ m)) (sym ((same_iff k i).0 f)) ∙ absent in
                rw f (ap (λ o. kept_or o (some v)) (sym gone))
            | inr f ↦ rw f (sym (kept_or-none (get i ((j, w) ∷ m))))
          ]))
      | inr later ↦ rw n (
          rw later (elim (Bool-cases (same j i)) [
            | inl f ↦ rw f refl
            | inr f ↦ rw f (get-put_new i k v m h)
          ]))
    ]
  ]

  -- a key behind all of a map goes to its end
  pub put-last :
      (k : Bytes) (v : A) (m : List (Bytes × A))
      → All (λ e. less e.0 k ≡ true) m
      → put k v m ≡ m ++ (k, v) ∷ []
  unfolding put
  put-last k v [] h = refl
  put-last k v ((j, w) ∷ m) (hj, h) =
      let other : same j k ≡ false = less-other j k hj in
      let later : less k j ≡ false = less_asym j k hj in
      rw other (rw later (ap (◌∷◌ (j, w)) (put-last k v m h)))
