-- ===== src/Md5/Tests.antt =====
-- The digest at concrete messages, and its theorems at them.
use studytest.Base.{
  ℕ, none, ◌≡◌, refl, [], ◌∷◌, ◌++◌, codes, replicate, take, true, false, same, arith, some,
}
use studytest.Md5.Transform.{transform, bytes_to_hex_string, encode}
use studytest.Md5.Spec.{md5}
use studytest.Md5.Rfc.{rfc1321}
use studytest.Md5.Hold.{update-Holds, Holds, reset-Holds}
use studytest.Md5.Stream.{update_file, digest-update_file}
use studytest.Md5.Final.{digest-md5, digest-update_all, update_all, message, finished-update}
use studytest.Md5.Again.{digest_overwrites}
use studytest.Md5.{update, Md5, final, initial, reset, digest, to_string}

abbrev fresh : Md5
fresh = record {
  state = initial;
  count0 = 0;
  count1 = 0;
  buffer = replicate 64 0;
  digest_bytes = replicate 16 0;
  finished = false;
}

digest_empty : (to_string fresh).1 ≡ codes "d41d8cd98f00b204e9800998ecf8427e"
unfolding to_string final update transform encode bytes_to_hex_string
digest_empty = refl

-- 56 bytes: the second digest is another one.
digest_twice :
    (let m = update (reset fresh) (replicate 56 b'a') in
      let (once, first) = to_string m in same first (to_string once).1)
    ≡ false
unfolding to_string final update transform encode bytes_to_hex_string reset
digest_twice = refl

abc-Holds : Holds (update (reset fresh) (codes "abc")) ([] ++ codes "abc")
abc-Holds = update-Holds (codes "abc") (reset-Holds fresh refl) (omega arith)

long-Holds : Holds (update (reset fresh) (replicate 56 b'a')) ([] ++ replicate 56 b'a')
long-Holds = update-Holds (replicate 56 b'a') (reset-Holds fresh refl) (omega arith)

digest-md5_example :
    (digest (update (reset fresh) (codes "abc"))).digest_bytes ≡ md5 ([] ++ codes "abc")
digest-md5_example = digest-md5 abc-Holds (finished-update (reset fresh) (codes "abc"))

digest-update_all_example :
    (digest (update_all (reset fresh) (codes "ab" ∷ codes "c" ∷ []))).digest_bytes
    ≡ rfc1321 (message (codes "ab" ∷ codes "c" ∷ []))
digest-update_all_example =
    digest-update_all fresh (codes "ab" ∷ codes "c" ∷ []) refl (omega arith, (omega arith, tt))

digest_overwrites_example :
    (take 56 (digest (update (reset fresh) (replicate 56 b'a'))).buffer ≡ replicate 56 0)
    × ((digest (update (reset fresh) (replicate 56 b'a'))).state
        ≡ (update (reset fresh) (replicate 56 b'a')).state)
    × ((digest (update (reset fresh) (replicate 56 b'a'))).count0
        ≡ (update (reset fresh) (replicate 56 b'a')).count0)
    × ((digest (update (reset fresh) (replicate 56 b'a'))).count1
        ≡ (update (reset fresh) (replicate 56 b'a')).count1)
digest_overwrites_example =
    digest_overwrites long-Holds (finished-update (reset fresh) (replicate 56 b'a')) (omega arith)

digest-update_file_example :
    ((m' : Md5) × (update_file true false 4 (reset fresh) (codes "abc") ≡ some m')
      × ((digest m').digest_bytes ≡ rfc1321 (codes "abc")))
    × ((rounds : ℕ) → update_file true true rounds (reset fresh) (codes "abc") ≡ none)
    × (update_file false false 4 fresh (codes "abc") ≡ some fresh)
digest-update_file_example = digest-update_file fresh (codes "abc") 4 refl (omega arith)

-- the test suite of the RFC
rfc_empty : bytes_to_hex_string (rfc1321 []) ≡ codes "d41d8cd98f00b204e9800998ecf8427e"
unfolding rfc1321 bytes_to_hex_string
rfc_empty = refl

rfc_abc : bytes_to_hex_string (rfc1321 (codes "abc")) ≡ codes "900150983cd24fb0d6963f7d28e17f72"
unfolding rfc1321 bytes_to_hex_string
rfc_abc = refl

rfc_message_digest :
    bytes_to_hex_string (rfc1321 (codes "message digest"))
    ≡ codes "f96b697d7cb7938d525a2f31aaf161d0"
unfolding rfc1321 bytes_to_hex_string
rfc_message_digest = refl

rfc_alphabet :
    bytes_to_hex_string (rfc1321 (codes "abcdefghijklmnopqrstuvwxyz"))
    ≡ codes "c3fcd3d76192e4007dfb496cca67e13b"
unfolding rfc1321 bytes_to_hex_string
rfc_alphabet = refl
