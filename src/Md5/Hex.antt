-- ===== src/Md5/Hex.antt =====
-- The text that `toString` gives, and the object used again behind a `reset`.
use mathlib.Core.List.{cons-ne-nil}
use studytest.Base.{
  ◌+◌, ℕ, zero, suc, ◌/◌, ◌%◌, ◌^◌, ◌<◌, ◌≡◌, ◌≢◌, refl, ap, ◌∙◌, [], ◌∷◌, true, false, Bytes,
  codes, length, get_or, has, All,
}
use studytest.Md5.Transform.{encode, bytes_to_hex_string, hex_digits}
use studytest.Md5.{Md5, reset, update, to_string}
use studytest.Md5.Spec.{md5}
use studytest.Md5.Hold.{Holds, reset-Holds, update-Holds}
use studytest.Md5.Final.{
  digest-md5, digest-final, final-fed, fed-Holds, finished-Holds, finished-update,
}

-- A character that is none of those listed.
abbrev pub Apart : Bytes → ℕ → Type 0
Apart list c = has list c ≡ false

get_or-All :
    (list digits : Bytes) (n : ℕ)
    → All (Apart list) digits
    → Apart list 0
    → Apart list (get_or digits n 0)
get_or-All list [] n h z = z
get_or-All list (d ∷ ds) zero (hd, h) z = hd
get_or-All list (d ∷ ds) (suc n) (hd, h) z = get_or-All list ds n h z

-- The digits are apart from every list that holds none of the sixteen digits and no NUL.
pub hex-Apart :
    (list input : Bytes)
    → All (Apart list) (codes "0123456789abcdef")
    → Apart list 0
    → All (Apart list) (bytes_to_hex_string input)
unfolding bytes_to_hex_string
hex-Apart list [] h z = tt
hex-Apart list (t ∷ input) h z = (
  get_or-All list hex_digits (t / 16) h z,
  (get_or-All list hex_digits (t % 16) h z, hex-Apart list input h z),
)

pub md5-ne : (msg : Bytes) → bytes_to_hex_string (md5 msg) ≢ []
unfolding bytes_to_hex_string encode
md5-ne msg e = cons-ne-nil _ _ e

-- two digits for each of sixteen bytes
pub md5-size : (msg : Bytes) → length (bytes_to_hex_string (md5 msg)) ≡ 32
unfolding bytes_to_hex_string encode
md5-size msg = refl

-- the object behind `reset`, `update` and `toString`, and the text
abbrev pub hashed : Md5 → Bytes → Md5 × Bytes
hashed m input = to_string (update (reset m) input)

module _ (m : Md5) (input : Bytes) (size : length m.buffer ≡ 64)
    (small : length input + 63 < 2 ^ 32) where
  held : Holds (update (reset m) input) input
  held = update-Holds input (reset-Holds m size) small

  pub hashed-text : (hashed m input).1 ≡ bytes_to_hex_string (md5 input)
  unfolding to_string
  hashed-text = ap bytes_to_hex_string (digest-md5 held (finished-update (reset m) input))

  pub hashed-size : length (hashed m input).0.buffer ≡ 64
  unfolding to_string
  hashed-size =
      let v = finished-Holds true held in
      ap (λ (r : Md5). length r.buffer)
        (digest-final (update (reset m) input) (finished-update (reset m) input) ∙ final-fed v)
      ∙ (fed-Holds v).buffer_size
