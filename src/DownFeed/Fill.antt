-- ===== src/DownFeed/Fill.antt =====
-- How full the batches of `send_queue` are, from the counter of its loop.
use studytest.Base.{
  ℕ, suc, ◌+◌, ◌%◌, ◌≤◌, ◌<◌, ◌≡◌, ◌≢◌, refl, sym, ap, ◌∙◌, List, [], ◌∷◌, ◌++◌, false, ◌&&◌, arith,
  Bytes, length, length-append, ltb, ◌==◌, ==_iff, Bool-cases, inl, inr,
}
use mathlib.Core.List.{cons-ne-nil}
use native.Mathlib.Nat.{mod_self, mod-eq_of_lt, mod-add-mod}

abbrev pub Batch : Type 0
Batch = Bytes × List Bytes

-- full batches: the first of `k` lines, the others of `p`
abbrev pub IsFull : ℕ → ℕ → List Batch → Type 0
IsFull k p [] = Unit
IsFull k p ((host, ls) ∷ batches) = (length ls ≡ k) × IsFull p p batches

-- The same, but for the last batch, which has at least one line.
abbrev pub IsSized : ℕ → ℕ → List Batch → Type 0
IsSized k p [] = Unit
IsSized k p ((host, ls) ∷ []) = (1 ≤ length ls) × (length ls ≤ k)
IsSized k p ((host, ls) ∷ (b ∷ batches)) = (length ls ≡ k) × IsSized p p (b ∷ batches)

IsFull-last :
    (k p : ℕ) (batches : List Batch) (b : Batch)
    → batches ≢ []
    → IsFull k p batches
    → length b.1 ≡ p
    → IsFull k p (batches ++ b ∷ [])
IsFull-last k p [] b ne h e = absurd (ne refl)
IsFull-last k p ((host, ls) ∷ []) b ne (hl, h) e = (hl, (e, tt))
IsFull-last k p ((host, ls) ∷ (c ∷ batches)) b ne (hl, h) e =
    (hl, IsFull-last p p (c ∷ batches) b (cons-ne-nil _ _) h e)

pub IsSized-full :
    (k p : ℕ) (batches : List Batch) → 0 < k → 0 < p → IsFull k p batches → IsSized k p batches
IsSized-full k p [] hk hp h = tt
IsSized-full k p ((host, ls) ∷ []) hk hp (e, h) = (omega arith, omega arith)
IsSized-full k p ((host, ls) ∷ (b ∷ batches)) hk hp (e, h) =
    (e, IsSized-full p p (b ∷ batches) hp hp h)

pub IsSized-last :
    (k p : ℕ) (batches : List Batch) (b : Batch)
    → p ≤ k
    → 1 ≤ length b.1
    → length b.1 ≤ p
    → IsFull k p batches
    → IsSized k p (batches ++ b ∷ [])
IsSized-last k p [] b hk least most h = (least, omega arith)
IsSized-last k p ((host, ls) ∷ []) b hk least most (e, h) = (e, (least, most))
IsSized-last k p ((host, ls) ∷ (c ∷ batches)) b hk least most (e, h) =
    (e, IsSized-last p p (c ∷ batches) b (omega arith) least most h)

-- What the loop keeps: up to the first batch the counter tells the lines that are stored; later the remainder
-- of the counter does.
abbrev pub Fill : ℕ → List Batch → List Bytes → ℕ → Type 0
Fill p [] url_list counter = (length url_list ≡ counter) × (counter ≤ p)
Fill p (b ∷ batches) url_list counter =
    IsFull (suc p) p (b ∷ batches)
    × (length url_list < p)
    × (counter % p ≡ (1 + length url_list) % p)
    × (0 < counter)

mod-none : (p n : ℕ) → 0 < n → n ≤ p → n % p ≡ 0 → n ≡ p
mod-none p n least most e = elim (Bool-cases (ltb n p)) [
  | inl small ↦
      let itself : n % p ≡ n = mod-eq_of_lt (ground arith) in absurd (omega (arith, e, itself))
  | inr large ↦ ground arith
]

mod-suc : (p a b : ℕ) → a % p ≡ b % p → suc a % p ≡ suc b % p
mod-suc p a b e =
    ap (λ t. t % p) (omega arith)
    ∙ sym (mod-add-mod a p 1)
    ∙ ap (λ t. (t + 1) % p) e
    ∙ mod-add-mod b p 1
    ∙ ap (λ t. t % p) (omega arith)

-- a full batch is queued
pub Fill-full :
    (p : ℕ) (batches : List Batch) (url_list : List Bytes) (counter : ℕ) (host line : Bytes)
    → 0 < p
    → 0 < counter
    → counter % p ≡ 0
    → Fill p batches url_list counter
    → Fill p (batches ++ (host, url_list ++ line ∷ []) ∷ []) [] (suc counter)
Fill-full p [] url_list counter host line hp hc e (stored, most) =
    let all : counter ≡ p = mod-none p counter hc most e in
    (
      (omega (arith, length-append url_list (line ∷ [])), tt),
      hp,
      mod-suc p counter 0 (e ∙ sym (mod-eq_of_lt hp)),
      omega arith,
    )
Fill-full p (b ∷ batches) url_list counter host line hp hc e (full, small, m, least) =
    let all : suc (length url_list) ≡ p =
      mod-none p (suc (length url_list)) (omega arith) (omega arith)
        (ap (λ t. t % p) (omega arith) ∙ sym m ∙ e) in
    (
      IsFull-last (suc p) p (b ∷ batches) (host, url_list ++ line ∷ []) (cons-ne-nil _ _) full
          (omega (arith, length-append url_list (line ∷ []))),
      hp,
      mod-suc p counter 0 (e ∙ sym (mod-eq_of_lt hp)),
      omega arith,
    )

room-ne :
    (p counter : ℕ) → (ltb 0 counter && (counter % p == 0)) ≡ false → 0 < counter → counter % p ≢ 0
room-ne p counter room h e = ground arith

self-none : (p n : ℕ) → n ≡ p → n % p ≡ 0
self-none p n e = ap (λ t. t % p) e ∙ mod_self p

-- a line is stored
pub Fill-room :
    (p : ℕ) (batches : List Batch) (url_list : List Bytes) (counter : ℕ) (line : Bytes)
    → 0 < p
    → (ltb 0 counter && (counter % p == 0)) ≡ false
    → Fill p batches url_list counter
    → Fill p batches (url_list ++ line ∷ []) (suc counter)
Fill-room p [] url_list counter line hp room (stored, most) = (
  omega (arith, length-append url_list (line ∷ [])),
  elim (Bool-cases (counter == p)) [
    | inl e ↦
        let is : counter ≡ p = (==_iff counter p).0 e in
        absurd (room-ne p counter room (omega arith) (self-none p counter is))
    | inr e ↦ ground arith
  ],
)
Fill-room p (b ∷ batches) url_list counter line hp room (full, small, m, least) =
    let len : 1 + length (url_list ++ line ∷ []) ≡ suc (1 + length url_list) =
      omega (arith, length-append url_list (line ∷ [])) in
    (
      full,
      elim (Bool-cases (1 + length url_list == p)) [
        | inl e ↦ absurd (
            room-ne p counter room least (m ∙ self-none p (1 + length url_list) ((==_iff _ p).0 e)))
        | inr e ↦ ground (arith, len)
      ],
      mod-suc p counter (1 + length url_list) m ∙ ap (λ t. t % p) (sym len),
      omega arith,
    )

pub Fill-IsFull :
    (p : ℕ) (batches : List Batch) (url_list : List Bytes) (counter : ℕ)
    → Fill p batches url_list counter
    → IsFull (suc p) p batches × (length url_list ≤ p)
Fill-IsFull p [] url_list counter (stored, most) = (tt, omega arith)
Fill-IsFull p (b ∷ batches) url_list counter (full, small, m, least) = (full, omega arith)
