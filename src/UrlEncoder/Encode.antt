-- ===== src/UrlEncoder/Encode.antt =====
-- The two `encoding` functions of URLEncoder.cpp, and what they write.
use studytest.Base.{
  ℕ, ◌+◌, ◌≤◌, ◌≡◌, ◌≢◌, refl, sym, ap, ◌∙◌, [], ◌∷◌, ◌++◌, append_assoc, append-nil, Option, some,
  none, false, arith, Bytes, length, length-append, get_or, ltb, ◌==◌, if◌then◌else◌, All,
  Bool-cases, ◌⊎◌, inl, inr, ltb→lt, not-ltb→le,
}
use studytest.UrlEncoder.Table.{bytemap, escaped, Reply, untouched, wrote}

-- one round: what is written for a byte
unfoldable pub emit : ℕ → Bytes
unfolding bytemap escaped
emit c = if get_or bytemap c 0 == 0 then escaped c else get_or bytemap c 0 ∷ []

-- The loop over the `srclen` bytes. `pdest < pdestend` is that what is written and four more bytes
-- are fewer than `destsize`.
pub encoding_loop : Bytes → ℕ → Bytes → Bytes
encoding_loop [] destsize out = out
encoding_loop (c ∷ s) destsize out =
    if ltb (length out + 4) destsize then encoding_loop s destsize (out ++ emit c) else out

-- `encoding(src, srclen, dest, destsize)`: `none` is NULL, and the list holds `srclen` bytes.
unfoldable pub encoding : Option Bytes → ℕ → Reply
unfolding encoding_loop
encoding none destsize = untouched
encoding (some []) destsize = untouched
encoding (some (c ∷ s)) destsize = wrote (encoding_loop (c ∷ s) destsize [])

-- The loop that ends at a NUL. The list is the memory from `src` on.
pub encoding_cstr_loop : Bytes → ℕ → Bytes → Bytes
encoding_cstr_loop [] destsize out = out
encoding_cstr_loop (c ∷ s) destsize out =
    let rest = encoding_cstr_loop s destsize (out ++ emit c) in
    if c == 0 then out else if ltb (length out + 4) destsize then rest else out

-- `encoding(src, dest, destsize)`
unfoldable pub encoding_cstr : Option Bytes → ℕ → Reply
unfolding encoding_cstr_loop
encoding_cstr none destsize = untouched
encoding_cstr (some mem) destsize = wrote (encoding_cstr_loop mem destsize [])

-- every byte encoded, in order
abbrev pub encoded : Bytes → Bytes
encoded [] = []
encoded (c ∷ s) = emit c ++ encoded s

emit-length : (c : ℕ) → (1 ≤ length (emit c)) × (length (emit c) ≤ 3)
unfolding emit
emit-length c = elim (Bool-cases (get_or bytemap c 0 == 0)) [
  | inl e ↦ rw e (unfold escaped in (omega arith))
  | inr e ↦ rw e (omega arith)
]

-- What the loop has written when it stops: a first part of the source, encoded, that leaves room for
-- the NUL; and it stops early only when fewer than five bytes are left.
abbrev pub Covers : Bytes → ℕ → Bytes → Bytes → Type 0
Covers s destsize out text =
    (done rest : Bytes) × (s ≡ done ++ rest)
    × (text ≡ out ++ encoded done)
    × (length text + 2 ≤ destsize)
    × ((rest ≡ []) ⊎ (destsize ≤ length text + 4))

encoding_loop-Covers :
    (s : Bytes) (destsize : ℕ) (out : Bytes)
    → length out + 2 ≤ destsize
    → Covers s destsize out (encoding_loop s destsize out)
unfolding encoding_loop
encoding_loop-Covers [] destsize out h = ([], [], refl, sym (append-nil out), h, inl refl)
encoding_loop-Covers (c ∷ s) destsize out h = elim (Bool-cases (ltb (length out + 4) destsize)) [
  | inl room ↦
      let (low, high) = emit-length c in
      let (done, rest, split, text, fits, stop) =
        encoding_loop-Covers s destsize (out ++ emit c)
          (omega (arith, ltb→lt _ _ room, length-append out (emit c))) in
      rw room (
        c ∷ done,
        rest,
        ap (◌∷◌ c) split,
        text ∙ append_assoc out (emit c) (encoded done),
        fits,
        stop,
      )
  | inr full ↦
      rw full
        ([], c ∷ s, refl, sym (append-nil out), h, inr (not-ltb→le (length out + 4) destsize full))
]

-- The result of an encoder on a source of at least one byte.
abbrev pub Encodes : Bytes → ℕ → Reply → Type 0
Encodes s destsize r = (text : Bytes) × (r ≡ wrote text) × Covers s destsize [] text

-- `encoding` of a source of at least one byte into a buffer of two bytes or more writes the
-- encoding of a first part of the source and a NUL within the buffer; it leaves a byte of the
-- source out only if fewer than five bytes are left.
pub encoding-Encodes :
    (s : Bytes) (destsize : ℕ)
    → s ≢ []
    → 2 ≤ destsize
    → Encodes s destsize (encoding (some s) destsize)
unfolding encoding
encoding-Encodes [] destsize ne h = absurd (ne refl)
encoding-Encodes (c ∷ s) destsize ne h = (
  encoding_loop (c ∷ s) destsize [],
  refl,
  encoding_loop-Covers (c ∷ s) destsize [] (omega arith),
)

-- no NUL
abbrev pub IsText : Bytes → Type 0
IsText = All (λ c. (c == 0) ≡ false)

encoding_cstr_loop-eq :
    (s mem : Bytes) (destsize : ℕ) (out : Bytes)
    → IsText s
    → encoding_cstr_loop (s ++ (0 ∷ mem)) destsize out ≡ encoding_loop s destsize out
unfolding encoding_cstr_loop encoding_loop
encoding_cstr_loop-eq [] mem destsize out h = refl
encoding_cstr_loop-eq (c ∷ s) mem destsize out (hc, hs) =
    rw (hc, encoding_cstr_loop-eq s mem destsize (out ++ emit c) hs)

-- The two encoders agree: on a C string that is not empty the one that looks for the NUL does what
-- the other does on the bytes before it, whatever stands behind it in memory.
pub encoding_cstr-eq :
    (s mem : Bytes) (destsize : ℕ)
    → s ≢ []
    → IsText s
    → encoding_cstr (some (s ++ (0 ∷ mem))) destsize ≡ encoding (some s) destsize
unfolding encoding_cstr encoding
encoding_cstr-eq [] mem destsize ne h = absurd (ne refl)
encoding_cstr-eq (c ∷ s) mem destsize ne h =
    ap wrote (encoding_cstr_loop-eq (c ∷ s) mem destsize [] h)
