-- ===== src/Sql/Listing/Numbers.antt =====
-- When a number fits in the buffers of format_orderby_limit.
use studytest.Base.{
  ℕ, zero, suc, ◌+◌, ◌*◌, ◌/◌, ◌%◌, ◌≤◌, ◌<◌, ◌≡◌, ◌↔◌, ◌⊎◌, ℤ, pos, negsuc, Bytes, codes, Option,
  some, if◌then◌else◌, ◌++◌, [], ◌∷◌, none, true, false, arith, length, length-append, ltb, leb,
  Bool-cases, Option-cases, inl, inr,
}
use studytest.Sql.Listing.{
  decimal, number_text, int_text, order_clause, at_least_one, start_of, format_orderby_limit,
}

abbrev ten_to : ℕ → ℕ
ten_to zero = 1
ten_to (suc k) = 10 * ten_to k

ten_to-pos : (k : ℕ) → 1 ≤ ten_to k
ten_to-pos zero = omega arith
ten_to-pos (suc k) = omega (arith, ten_to-pos k)

decimal_last : (f n : ℕ) → 10 ≤ n → length (decimal (suc f) n) ≡ suc (length (decimal f (n / 10)))
unfolding decimal
decimal_last f n h =
    let long : ltb n 10 ≡ false = ground arith in
    rw long (omega (arith, length-append (decimal f (n / 10)) ((b'0' + n % 10) ∷ [])))

decimal_digit : (f n : ℕ) → n < 10 → length (decimal (suc f) n) ≡ 1
unfolding decimal
decimal_digit f n h = let short : ltb n 10 ≡ true = ground arith in rw short

decimal_some : (f n : ℕ) → 1 ≤ length (decimal (suc f) n)
decimal_some f n = elim (Bool-cases (ltb n 10)) [
  | inl short ↦ omega (arith, decimal_digit f n (ground arith))
  | inr long ↦ omega (arith, decimal_last f n (ground arith))
]

-- A number has as many digits as powers of ten are below it.
length-decimal : (k f n : ℕ) → k < f → (length (decimal (suc f) n) ≤ suc k) ↔ (n < ten_to (suc k))
length-decimal k zero n h = absurd (omega arith)
length-decimal zero (suc f) n h = elim (Bool-cases (ltb n 10)) [
  | inl short ↦ ((λ _. ground arith), (λ _. omega (arith, decimal_digit (suc f) n (ground arith))))
  | inr long ↦
      let b : 10 ≤ n = ground arith in
      (
        (λ p. absurd (omega (arith, decimal_last (suc f) n b, decimal_some f (n / 10)))),
        (λ p. absurd (omega arith)),
      )
]
length-decimal (suc k) (suc f) n h = elim (Bool-cases (ltb n 10)) [
  | inl short ↦ (
    (λ _. let b : n < 10 = ground arith in omega (arith, ten_to-pos (suc k))),
    (λ _. omega (arith, decimal_digit (suc f) n (ground arith))),
  )
  | inr long ↦
      let b : 10 ≤ n = ground arith in
      let (there, back) = length-decimal k f (n / 10) (omega arith) in
      (
        (λ p. let q = there (omega (arith, decimal_last (suc f) n b)) in omega arith),
        (λ p. let q = back (omega arith) in omega (arith, decimal_last (suc f) n b)),
      )
]

abbrev fitting : Bytes → Option Bytes
fitting text = if leb (length text) 9 then some text else none

fitting-none_iff : (text : Bytes) → (fitting text ≡ none) ↔ (10 ≤ length text)
fitting-none_iff text = elim (Bool-cases (leb (length text) 9)) [
  | inl fits ↦ ((λ e. let never = rw fits at e in cc), (λ p. absurd (ground arith)))
  | inr over ↦ ((λ e. ground arith), (λ p. rw over))
]

pub number_text-none_iff : (n : ℕ) → (number_text n ≡ none) ↔ (1000000000 ≤ n)
unfolding number_text
number_text-none_iff n =
    let (there, back) = length-decimal 8 10 n (omega arith) in
    let (over, long) = fitting-none_iff (decimal 11 n) in
    (
      (λ e. elim (Bool-cases (ltb n 1000000000)) [
        | inl small ↦ let p = back (ground arith) in let q = over e in absurd (omega arith)
        | inr large ↦ ground arith
      ]),
      (λ p. long (elim (Bool-cases (leb (length (decimal 11 n)) 9)) [
        | inl fits ↦ let q = there (ground arith) in absurd (omega arith)
        | inr large ↦ ground arith
      ])),
    )

-- ten digits or more, or nine behind a sign
abbrev pub TooLong : ℤ → Type 0
TooLong (pos n) = 1000000000 ≤ n
TooLong (negsuc n) = 100000000 ≤ suc n

int_text-none_iff : (i : ℤ) → (int_text i ≡ none) ↔ TooLong i
unfolding int_text
int_text-none_iff (pos n) = number_text-none_iff n
int_text-none_iff (negsuc n) =
    let (there, back) = length-decimal 7 10 (suc n) (omega arith) in
    let (over, long) = fitting-none_iff (codes "-" ++ decimal 11 (suc n)) in
    (
      (λ e. elim (Bool-cases (ltb (suc n) 100000000)) [
        | inl small ↦ let p = back (ground arith) in let q = over e in absurd (omega arith)
        | inr large ↦ ground arith
      ]),
      (λ p. long (elim (Bool-cases (leb (length (decimal 11 (suc n))) 8)) [
        | inl fits ↦ let q = there (ground arith) in absurd (omega arith)
        | inr large ↦ ground arith
      ])),
    )

-- `format_orderby_limit` with no column to order by writes behind its buffers exactly if the page size has ten
-- digits or more, or the start, cut to an int, has ten characters or more, its sign counted.
pub format_orderby_limit-none_iff :
    (page pagesize : ℤ) (limit_type : ℕ)
    → (format_orderby_limit page pagesize [] limit_type ≡ none)
      ↔ (TooLong (start_of page pagesize limit_type) ⊎ (1000000000 ≤ at_least_one pagesize))
unfolding format_orderby_limit order_clause
format_orderby_limit-none_iff page pagesize limit_type =
    let start = start_of page pagesize limit_type in
    let size = at_least_one pagesize in
    let (start_over, start_none) = int_text-none_iff start in
    let (size_over, size_none) = number_text-none_iff size in
    elim (Option-cases (int_text start)) [
      | inl e ↦ ((λ k. inl (start_over e)), (λ k. rw (e, format_orderby_limit, order_clause)))
      | inr (a, e) ↦ elim (Option-cases (number_text size)) [
        | inl e' ↦
            ((λ k. inr (size_over e')), (λ k. rw (e, e', format_orderby_limit, order_clause)))
        | inr (b, e') ↦ (
          rw (e, e', format_orderby_limit, order_clause) (λ k. cc),
          (λ k. elim k [
            | inl over ↦ let n = start_none over in cc
            | inr over ↦ let n = size_none over in cc
          ]),
        )
      ]
    ]
