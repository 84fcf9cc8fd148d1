-- ===== src/Md5/Stream.antt =====
-- down_parse_client/utils/MD5.cpp: `update(ifstream &in)`, which reads a file through a buffer of 1024 bytes,
-- and the constructor with a file. A file is the list of the bytes that can be read. The read behind them
-- meets the end of the file, or fails and sets `bad` but not `eof`, as with a directory or a bad disk.
use mathlib.Core.Path.{subst}
use studytest.Base.{
  ℕ, zero, suc, ◌<◌, ◌≤◌, ◌≡◌, refl, sym, ap, ◌∙◌, [], ◌∷◌, ◌++◌, append_assoc, append-nil, Option,
  some, none, Bool, true, false, ◌&&◌, not, arith, Bytes, length, length-take, length-drop, take,
  drop, take-append-drop, ltb, ltb→lt, not-ltb→le, if◌then◌else◌, Bool-cases, inl, inr,
}
use studytest.Md5.{Md5, reset, update, digest}
use studytest.Md5.Rfc.{rfc1321}
use studytest.Md5.Agrees.{md5-rfc1321}
use studytest.Md5.Hold.{Holds, update-Holds, reset-Holds}
use studytest.Md5.Final.{digest-md5, finished-update}

-- `if (length > 0) update(buffer, length);`
abbrev pub update_piece : Md5 → Bytes → Md5
update_piece m [] = m
update_piece m (c ∷ piece) = update m (c ∷ piece)

-- The loop, on what is left of the file and on fuel. A read of fewer bytes than asked for sets `eof`, unless
-- the reading is `broken` there: then the loop goes on with nothing more to read.
unfoldable pub update_loop : Bool → ℕ → Md5 → Bytes → Option Md5
update_loop broken zero m rest = none
update_loop broken (suc f) m rest =
    let m' = update_piece m (take 1024 rest) in
    let more = update_loop broken f m' (drop 1024 rest) in
    if ltb (length rest) 1024 && not broken then some m' else more

-- `update(ifstream &in)` on fuel; the first argument says whether the stream is good
unfoldable pub update_file : Bool → Bool → ℕ → Md5 → Bytes → Option Md5
unfolding update_loop
update_file good broken fuel m file = if good then update_loop broken fuel m file else some m

update_piece-Holds :
    {m : Md5} {msg : Bytes} (piece : Bytes)
    → Holds m msg
    → m.finished ≡ false
    → length piece ≤ 1024
    → Holds (update_piece m piece) (msg ++ piece) × ((update_piece m piece).finished ≡ false)
update_piece-Holds [] v f h = (rw append-nil v, f)
update_piece-Holds {m} {msg} (c ∷ piece) v f h =
    (update-Holds (c ∷ piece) v (omega arith), finished-update m (c ∷ piece))

drop-all : (n : ℕ) (xs : Bytes) → length xs ≤ n → drop n xs ≡ []
drop-all zero [] h = refl
drop-all zero (x ∷ xs) h = absurd (omega arith)
drop-all (suc n) [] h = refl
drop-all (suc n) (x ∷ xs) h = drop-all n xs (omega arith)

take-all : (n : ℕ) (xs : Bytes) → length xs ≤ n → take n xs ≡ xs
take-all n xs h =
    sym (append-nil (take n xs))
    ∙ ap (λ t. take n xs ++ t) (sym (drop-all n xs h))
    ∙ take-append-drop n xs

update_loop-Holds :
    (f : ℕ) (m : Md5) (msg rest : Bytes)
    → length rest < f
    → Holds m msg
    → m.finished ≡ false
    → (m' : Md5) × (update_loop false f m rest ≡ some m')
      × Holds m' (msg ++ rest)
      × (m'.finished ≡ false)
unfolding update_loop
update_loop-Holds zero m msg rest h v fin = absurd (omega arith)
update_loop-Holds (suc f) m msg rest h v fin =
    let (v', fin') =
      update_piece-Holds (take 1024 rest) v fin (omega (arith, length-take 1024 rest)) in
    elim (Bool-cases (ltb (length rest) 1024)) [
      | inl last ↦
          let small : length rest < 1024 = ltb→lt (length rest) 1024 last in
          (
            _,
            rw (last, update_loop) refl,
            subst (λ t. Holds (update_piece m (take 1024 rest)) (msg ++ t))
                (take-all 1024 rest (omega arith)) v',
            fin',
          )
      | inr full ↦
          let large : 1024 ≤ length rest = not-ltb→le (length rest) 1024 full in
          let (m', e, held, done) =
            update_loop-Holds f (update_piece m (take 1024 rest)) (msg ++ take 1024 rest)
              (drop 1024 rest) (omega (arith, length-drop 1024 rest)) v' fin' in
          (
            m',
            rw (full, update_loop) e,
            subst (Holds m')
                (append_assoc msg (take 1024 rest) (drop 1024 rest)
                  ∙ ap (◌++◌ msg) (take-append-drop 1024 rest))
                held,
            done,
          )
    ]

update_loop-broken : (f : ℕ) (m : Md5) (rest : Bytes) → update_loop true f m rest ≡ none
unfolding update_loop
update_loop-broken zero m rest = refl
update_loop-broken (suc f) m rest = elim (Bool-cases (ltb (length rest) 1024)) [
  | inl e ↦
      rw (e, update_loop) (update_loop-broken f (update_piece m (take 1024 rest)) (drop 1024 rest))
  | inr e ↦
      rw (e, update_loop) (update_loop-broken f (update_piece m (take 1024 rest)) (drop 1024 rest))
]

-- For a good stream: where no read fails, the loop over a file ends after at most one round for each byte and
-- one more, and the digest of an object that was reset and updated with the file, whatever its size, is the MD5
-- of RFC 1321 of what the file holds; where a read fails, the loop never ends, whatever the number of rounds.
-- A stream that is not good leaves the object as it is. The buffer of the object has its 64 bytes.
pub digest-update_file :
    (m : Md5) (file : Bytes) (fuel : ℕ)
    → length m.buffer ≡ 64
    → length file < fuel
    → ((m' : Md5) × (update_file true false fuel (reset m) file ≡ some m')
        × ((digest m').digest_bytes ≡ rfc1321 file))
      × ((rounds : ℕ) → update_file true true rounds (reset m) file ≡ none)
      × (update_file false false fuel m file ≡ some m)
unfolding update_file
digest-update_file m file fuel size enough =
    let (m', e, held, done) =
      update_loop-Holds fuel (reset m) [] file enough (reset-Holds m size) (unfold reset in refl) in
    (
      (m', e, digest-md5 held done ∙ md5-rfc1321 file),
      (λ rounds. update_loop-broken rounds (reset m) file),
      refl,
    )
