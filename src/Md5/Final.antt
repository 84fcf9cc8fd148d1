-- ===== src/Md5/Final.antt =====
-- What `digest` returns, for a message that comes in pieces.
use studytest.Base.{
  ◌≤◌, ℕ, ◌+◌, ◌-◌, ◌/◌, ◌%◌, ◌^◌, ◌<◌, ◌≡◌, refl, sym, ap, ◌∙◌, List, [], ◌∷◌, ◌++◌, append_assoc,
  append-nil, Bool, true, false, arith, Bytes, length, length-append, length-take, take, ltb,
  if◌then◌else◌, All,
}
use studytest.Md5.Transform.{encode}
use studytest.Md5.{Md5, initial, padding, reset, index_of, update, final, digest}
use studytest.Md5.Spec.{chain, pad_length, length_bytes, padded, encode_words, md5}
use studytest.Md5.Rfc.{rfc1321}
use studytest.Md5.Agrees.{md5-rfc1321}
use studytest.Md5.Hold.{Holds, index_of-Holds, update-Holds, reset-Holds}

-- `_finished` says nothing of the message.
pub finished-Holds :
    {m : Md5} {msg : Bytes} (b : Bool) → Holds m msg → Holds (record m { finished = b }) msg
finished-Holds b v = record {
  count = v.count;
  whole = v.whole;
  left = v.left;
  junk = v.junk;
  split = v.split;
  in_blocks = v.in_blocks;
  short = v.short;
  state_is = v.state_is;
  buffer_is = v.buffer_is;
  buffer_size = v.buffer_size;
  count0_is = v.count0_is;
  count1_is = v.count1_is;
}

pub length-length_bytes : (n : ℕ) → length (length_bytes n) ≡ 8
unfolding encode
length-length_bytes n = omega arith

pub length-pad : (n : ℕ) → length (take (pad_length n) padding) ≡ pad_length n
length-pad n = ground (arith, length-take (pad_length n) padding)

pad_length-le : (n : ℕ) → pad_length n ≤ 64
pad_length-le n = ground arith

nil_of_length : (s : Bytes) → length s ≡ 0 → s ≡ []
nil_of_length [] h = refl
nil_of_length (c ∷ s) h = absurd (omega arith)

-- A message that ends with a block is in the state as a whole.
aligned :
    {m : Md5} {msg : Bytes}
    → Holds m msg
    → length msg % 64 ≡ 0
    → m.state ≡ chain (length msg / 64) initial msg
aligned {m} {msg} v h =
    let len : length msg ≡ length v.whole + length v.left =
      ap length v.split ∙ length-append v.whole v.left in
    let none_left : v.left ≡ [] = nil_of_length v.left (omega (arith, v.in_blocks, v.short)) in
    let all : msg ≡ v.whole = v.split ∙ ap (◌++◌ v.whole) none_left ∙ append-nil v.whole in
    let k : v.count ≡ length msg / 64 = omega (arith, v.in_blocks, ap length none_left) in
    v.state_is
    ∙ ap (λ n. chain n initial v.whole) k
    ∙ ap (chain (length msg / 64) initial) (sym all)

-- the padding that `final` computes is that of the message
pub pad-Holds :
    {m : Md5} {msg : Bytes}
    → Holds m msg
    → (if ltb (index_of m.count0) 56 then 56 - index_of m.count0 else 120 - index_of m.count0)
      ≡ pad_length (length msg)
pad-Holds {m} {msg} v =
    let i : index_of m.count0 ≡ length msg % 64 = omega (
      arith,
      index_of-Holds v,
      ap length v.split,
      length-append v.whole v.left,
      v.in_blocks,
      v.short,
    ) in
    ap (λ n. if ltb n 56 then 56 - n else 120 - n) i

pub bits-Holds :
    {m : Md5} {msg : Bytes}
    → Holds m msg
    → encode (m.count0 ∷ (m.count1 ∷ [])) ≡ length_bytes (length msg)
bits-Holds v = rw (v.count0_is, v.count1_is)

-- the object behind the two calls of `update` in `final`
abbrev pub fed : Md5 → ℕ → Md5
fed m len = update (update m (take (pad_length len) padding)) (length_bytes len)

pub fed-Holds : {m : Md5} {msg : Bytes} → Holds m msg → Holds (fed m (length msg)) (padded msg)
fed-Holds {m} {msg} v =
    let pad = take (pad_length (length msg)) padding in
    let v' =
      update-Holds pad v (omega (arith, length-pad (length msg), pad_length-le (length msg))) in
    let v'' =
      update-Holds (length_bytes (length msg)) v'
        (omega (arith, length-length_bytes (length msg))) in
    rw append_assoc at v''

length-padded : (msg : Bytes) → length (padded msg) % 64 ≡ 0
length-padded msg =
    let len = length msg in
    let pad = take (pad_length len) padding in
    let n : length (padded msg) ≡ len + (pad_length len + 8) = omega (
      arith,
      length-append msg (pad ++ length_bytes len),
      length-append pad (length_bytes len),
      length-pad len,
      length-length_bytes len,
    ) in
    rw n (ground arith)

pub final-fed :
    {m : Md5} {msg : Bytes}
    → Holds m msg
    → final m ≡ record (fed m (length msg)) {
      digest_bytes = encode_words (fed m (length msg)).state;
      state = m.state;
      count0 = m.count0;
      count1 = m.count1;
    }
unfolding final
final-fed v = rw (pad-Holds v, bits-Holds v)

pub final-md5 : {m : Md5} {msg : Bytes} → Holds m msg → (final m).digest_bytes ≡ md5 msg
final-md5 {m} {msg} v =
    ap (λ (r : Md5). r.digest_bytes) (final-fed v)
    ∙ ap encode_words (aligned (fed-Holds v) (length-padded msg))

pub digest-final : (m : Md5) → m.finished ≡ false → digest m ≡ final (record m { finished = true })
unfolding digest
digest-final m h = ap (λ b. if b then m else final (record m { finished = true })) h

-- `digest` of an object that is not finished returns the MD5 of the message that it holds.
pub digest-md5 :
    {m : Md5} {msg : Bytes} → Holds m msg → m.finished ≡ false → (digest m).digest_bytes ≡ md5 msg
digest-md5 {m} {msg} v h =
    ap (λ (r : Md5). r.digest_bytes) (digest-final m h) ∙ final-md5 (finished-Holds true v)

pub finished-update : (m : Md5) (input : Bytes) → (update m input).finished ≡ false
unfolding update
finished-update m input = ground arith

-- all pieces, one after the other
abbrev pub update_all : Md5 → List Bytes → Md5
update_all m [] = m
update_all m (piece ∷ pieces) = update_all (update m piece) pieces

abbrev pub message : List Bytes → Bytes
message [] = []
message (piece ∷ pieces) = piece ++ message pieces

abbrev pub Short : List Bytes → Type 0
Short = All (λ piece. length piece + 63 < 2 ^ 32)

update_all-Holds :
    (m : Md5) (msg : Bytes) (pieces : List Bytes)
    → Holds m msg
    → m.finished ≡ false
    → Short pieces
    → Holds (update_all m pieces) (msg ++ message pieces) × ((update_all m pieces).finished ≡ false)
update_all-Holds m msg [] v f h = (rw append-nil v, f)
update_all-Holds m msg (piece ∷ pieces) v f (h, hs) =
    rw (← append_assoc msg piece (message pieces)) (
      update_all-Holds (update m piece) (msg ++ piece) pieces (update-Holds piece v h)
        (finished-update m piece) hs)

-- However a message is cut into pieces shorter than 2 ^ 32 - 63 bytes, resetting an object whose buffer
-- has its 64 bytes, updating it with the pieces in order and taking the digest gives the MD5 of
-- the message as RFC 1321 has it: `rfc1321` is written from the RFC, with its constants and rules.
pub digest-update_all :
    (m : Md5) (pieces : List Bytes)
    → length m.buffer ≡ 64
    → Short pieces
    → (digest (update_all (reset m) pieces)).digest_bytes ≡ rfc1321 (message pieces)
digest-update_all m pieces size h =
    let (v, f) =
      update_all-Holds (reset m) [] pieces (reset-Holds m size) (unfold reset in refl) h in
    digest-md5 v f ∙ md5-rfc1321 (message pieces)
