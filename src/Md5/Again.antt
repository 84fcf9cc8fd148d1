-- ===== src/Md5/Again.antt =====
-- An object after `digest`: whether it still holds its message.
use studytest.Base.{
  replicate, false, true, leb, ◌≤◌, suc, zero, ℕ, zero, suc, ◌+◌, ◌-◌, ◌*◌, ◌%◌, ◌^◌, ◌<◌, ◌≡◌,
  refl, ap, ◌∙◌, [], ◌++◌, append_assoc, arith, Bytes, length, length-append, take, drop,
}
use studytest.Md5.Transform.{Words, transform}
use studytest.Md5.{final, digest, Md5, padding, write_at, index_of, update}
use studytest.Md5.Spec.{pad_length, length_bytes}
use studytest.Md5.Blocks.{whole_blocks, blocks-whole_blocks}
use studytest.Md5.Hold.{
  Holds, index_of-Holds, filled, update_short, update_long, write_at-left, add_counts, drop_all,
}
use studytest.Md5.Final.{
  finished-Holds, final-fed, digest-final, fed-Holds, length-pad, length-length_bytes, fed,
}

blocks-nil : (f : ℕ) (w : Words) → whole_blocks f w [] ≡ (w, [])
unfolding whole_blocks
blocks-nil zero w = refl
blocks-nil (suc f) w = refl

write_nothing : (buffer : Bytes) → write_at buffer 0 [] ≡ buffer
write_nothing buffer = refl

-- an input that fills the buffer exactly
buffer-update_exact :
    (m : Md5) (input : Bytes)
    → length input ≡ 64 - index_of m.count0
    → (update m input).buffer ≡ filled m input
buffer-update_exact m input h =
    let none_left : drop (64 - index_of m.count0) input ≡ [] =
      drop_all (64 - index_of m.count0) input (omega arith) in
    ap (λ (r : Md5). r.buffer)
      (update_long m input [] _ (omega arith) (
        blocks-whole_blocks (length input) (64 - index_of m.count0)
          (transform m.state (filled m input)) input (omega arith) (omega arith)
        ∙ ap (whole_blocks (length input) (transform m.state (filled m input))) none_left
        ∙ blocks-nil (length input) (transform m.state (filled m input))))

-- The buffer after an input that fills it exactly still begins with what it began with.
exact_keeps :
    (m : Md5) (input left junk : Bytes)
    → length input ≡ 64 - index_of m.count0
    → m.buffer ≡ left ++ junk
    → index_of m.count0 ≡ length left
    → (junk' : Bytes) × ((update m input).buffer ≡ left ++ junk')
exact_keeps m input left junk h e i =
    let first = take (64 - index_of m.count0) input in
    (
      first ++ drop (index_of m.count0 + length first) m.buffer,
      buffer-update_exact m input h
          ∙ write_at-left m.buffer left junk first (index_of m.count0) e i
          ∙ append_assoc left first (drop (index_of m.count0 + length first) m.buffer),
    )

module _ {m : Md5} {msg : Bytes} (v : Holds m msg) where
  index-Holds : index_of m.count0 ≡ length msg % 64
  index-Holds = omega (
    arith,
    index_of-Holds v,
    ap length v.split,
    length-append v.whole v.left,
    v.in_blocks,
    v.short,
  )

  -- With room for the length in the block, the padding goes behind what is left.
  buffer-fed :
      length msg % 64 < 56 → (junk : Bytes) × ((fed m (length msg)).buffer ≡ v.left ++ junk)
  buffer-fed room =
      let len = length msg in
      let pad = take (pad_length len) padding in
      let n : length pad ≡ 56 - len % 64 = length-pad len ∙ ground arith in
      let i = index-Holds in
      let m' = update m pad in
      let after = update_short m pad (omega arith) in
      let b : m'.buffer ≡ (v.left ++ pad) ++ drop (index_of m.count0 + length pad) m.buffer =
        ap (λ (r : Md5). r.buffer) after
        ∙ write_at-left m.buffer v.left v.junk pad (index_of m.count0) v.buffer_is
            (index_of-Holds v) in
      let c : m'.count0 ≡ (len + length pad) * 8 % 2 ^ 32 =
        ap (λ (r : Md5). r.count0) after
        ∙ (add_counts m.count0 m.count1 len (length pad) v.count0_is v.count1_is (omega arith)).0 in
      let full : index_of m'.count0 ≡ 56 = omega arith in
      let (junk, e) =
        exact_keeps m' (length_bytes len) (v.left ++ pad) _ (omega (arith, length-length_bytes len))
          b (omega (arith, length-append v.left pad, index_of-Holds v)) in
      (pad ++ junk, e ∙ append_assoc v.left pad junk)

  final-Holds : length msg % 64 < 56 → Holds (final m) msg
  final-Holds room =
      let (junk, b) = buffer-fed room in
      rw (final-fed v) (record {
        count = v.count;
        whole = v.whole;
        left = v.left;
        junk = junk;
        split = v.split;
        in_blocks = v.in_blocks;
        short = v.short;
        state_is = v.state_is;
        buffer_is = b;
        buffer_size = (fed-Holds v).buffer_size;
        count0_is = v.count0_is;
        count1_is = v.count1_is;
      })

-- If an object is not finished and fewer than 56 bytes of its message stand behind the last whole
-- block, `digest` leaves an object that still holds the message, so that it may be updated further
-- and asked again.
digest-Holds :
    {m : Md5} {msg : Bytes}
    → Holds m msg
    → m.finished ≡ false
    → length msg % 64 < 56
    → Holds (digest m) msg
digest-Holds {m} {msg} v h room = rw (digest-final m h) (final-Holds (finished-Holds true v) room)

blocks_short : (f : ℕ) (w : Words) (s : Bytes) → length s < 64 → whole_blocks f w s ≡ (w, s)
unfolding whole_blocks
blocks_short zero w s h = refl
blocks_short (suc f) w s h =
    let t : leb 64 (length s) ≡ false = ground arith in rw (t, whole_blocks)

-- what `update` copies to the front of the buffer, of a padding that does not fit
zeros : (j n : ℕ) → 1 ≤ j → j ≤ 8 → n ≡ 56 + j → drop j (take n padding) ≡ replicate 56 0
zeros zero n lo hi e = absurd (omega arith)
zeros (suc zero) n lo hi e = rw e
zeros (suc (suc zero)) n lo hi e = rw e
zeros (suc (suc (suc zero))) n lo hi e = rw e
zeros (suc (suc (suc (suc zero)))) n lo hi e = rw e
zeros (suc (suc (suc (suc (suc zero))))) n lo hi e = rw e
zeros (suc (suc (suc (suc (suc (suc zero)))))) n lo hi e = rw e
zeros (suc (suc (suc (suc (suc (suc (suc zero))))))) n lo hi e = rw e
zeros (suc (suc (suc (suc (suc (suc (suc (suc zero)))))))) n lo hi e = rw e
zeros (suc (suc (suc (suc (suc (suc (suc (suc (suc j))))))))) n lo hi e = absurd (omega arith)

module _ {m : Md5} {msg : Bytes} (v : Holds m msg) where
  -- Without room for the length the padding goes on at the front of the buffer.
  buffer-overrun :
      56 ≤ length msg % 64 → (junk : Bytes) × ((fed m (length msg)).buffer ≡ replicate 56 0 ++ junk)
  buffer-overrun tight =
      let len = length msg in
      let pad = take (pad_length len) padding in
      let p : pad_length len ≡ 120 - len % 64 = ground arith in
      let i = index-Holds v in
      let part_len = 64 - index_of m.count0 in
      let rest = drop part_len pad in
      let zero_rest : rest ≡ replicate 56 0 =
        zeros part_len (pad_length len) (omega arith) (omega arith) (omega arith) in
      let n : length pad ≡ 120 - len % 64 = length-pad len ∙ p in
      let m' = update m pad in
      let w = transform m.state (filled m pad) in
      let after = update_long m pad rest w (omega arith) (
        blocks-whole_blocks (length pad) part_len w pad (omega arith) (omega arith)
        ∙ blocks_short (length pad) w rest (omega (arith, ap length zero_rest))) in
      let b : m'.buffer ≡ replicate 56 0 ++ drop (0 + length rest) (filled m pad) =
        ap (λ (r : Md5). r.buffer) after
        ∙ ap (λ t. t ++ drop (0 + length rest) (filled m pad)) zero_rest in
      let c : m'.count0 ≡ (len + length pad) * 8 % 2 ^ 32 =
        ap (λ (r : Md5). r.count0) after
        ∙ (add_counts m.count0 m.count1 len (length pad) v.count0_is v.count1_is (omega arith)).0 in
      let full : index_of m'.count0 ≡ 56 = omega arith in
      exact_keeps m' (length_bytes len) (replicate 56 0) _ (omega (arith, length-length_bytes len))
        b (omega arith)

-- If an object is not finished and 56 bytes of its message or more stand behind the last whole
-- block, `digest` has overwritten the first 56 of them by zeros, though it puts the state and the
-- bit count back.
pub digest_overwrites :
    {m : Md5} {msg : Bytes}
    → Holds m msg
    → m.finished ≡ false
    → 56 ≤ length msg % 64
    → (take 56 (digest m).buffer ≡ replicate 56 0)
      × ((digest m).state ≡ m.state)
      × ((digest m).count0 ≡ m.count0)
      × ((digest m).count1 ≡ m.count1)
digest_overwrites {m} {msg} v h tight =
    let v' = finished-Holds true v in
    let (junk, b) = buffer-overrun v' tight in
    rw (digest-final m h ∙ final-fed v') (ap (take 56) b, refl, refl, refl)
