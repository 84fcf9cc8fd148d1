-- ===== src/Md5/Hold.antt =====
-- An object holds a message: its state is that after the whole blocks, its buffer begins with what is
-- left, and its count is the length in bits.
use studytest.Base.{
  ℕ, zero, suc, ◌+◌, ◌-◌, ◌*◌, ◌/◌, ◌%◌, ◌^◌, ◌<◌, ◌≤◌, ◌≡◌, refl, sym, ap, ◌∙◌, [], ◌∷◌, ◌++◌,
  append_assoc, append-nil, true, false, arith, Bytes, length, length-append, length-take,
  length-drop, take, drop, take-append-drop, leb, Bool-cases, inl, inr,
}
use studytest.Md5.Transform.{Words, transform}
use studytest.Md5.{Md5, initial, reset, write_at, index_of, blocks, add_count0, add_count1, update}
use studytest.Md5.Blocks.{blocks-whole_blocks, blocks_lem}
use studytest.Md5.Spec.{chain, chain-append, chain_block, take_exact}

pub record Holds (m : Md5) (msg : Bytes) : Type 0 where
  pub count : ℕ
  pub whole : Bytes
  pub left : Bytes
  pub junk : Bytes
  pub split : msg ≡ whole ++ left
  pub in_blocks : length whole ≡ 64 * count
  pub short : length left < 64
  pub state_is : m.state ≡ chain count initial whole
  pub buffer_is : m.buffer ≡ left ++ junk
  pub buffer_size : length m.buffer ≡ 64
  pub count0_is : m.count0 ≡ length msg * 8 % 2 ^ 32
  pub count1_is : m.count1 ≡ length msg * 8 / 2 ^ 32 % 2 ^ 32

pub index_of-Holds : {m : Md5} {msg : Bytes} (v : Holds m msg) → index_of m.count0 ≡ length v.left
index_of-Holds {m} {msg} v =
    omega
      (arith, v.count0_is, ap length v.split, length-append v.whole v.left, v.in_blocks, v.short)

pub add_counts :
    (count0 count1 len more : ℕ)
    → count0 ≡ len * 8 % 2 ^ 32
    → count1 ≡ len * 8 / 2 ^ 32 % 2 ^ 32
    → more < 2 ^ 32
    → (add_count0 count0 more ≡ (len + more) * 8 % 2 ^ 32)
      × (add_count1 count0 count1 more ≡ (len + more) * 8 / 2 ^ 32 % 2 ^ 32)
add_counts count0 count1 len more h0 h1 h = ground arith

pub length-write_at :
    (buffer : Bytes) (index : ℕ) (input : Bytes)
    → index + length input ≤ length buffer
    → length (write_at buffer index input) ≡ length buffer
length-write_at buffer index input h = omega (
  arith,
  length-append (take index buffer) (input ++ drop (index + length input) buffer),
  length-append input (drop (index + length input) buffer),
  length-take index buffer,
  length-drop (index + length input) buffer,
)

take-left :
    (buffer left junk : Bytes) (index : ℕ)
    → buffer ≡ left ++ junk
    → index ≡ length left
    → take index buffer ≡ left
take-left buffer left junk index e k = ap (take index) e ∙ take_exact index left junk (sym k)

-- writing behind what is left of the message
pub write_at-left :
    (buffer left junk input : Bytes) (index : ℕ)
    → buffer ≡ left ++ junk
    → index ≡ length left
    → write_at buffer index input ≡ (left ++ input) ++ drop (index + length input) buffer
write_at-left buffer left junk input index e k =
    ap (λ t. t ++ (input ++ drop (index + length input) buffer))
      (take-left buffer left junk index e k)
    ∙ sym (append_assoc left input _)

-- An input that does not fill the buffer goes behind what is left.
pub update_short :
    (m : Md5) (input : Bytes)
    → length input < 64 - index_of m.count0
    → update m input ≡ record m {
      finished = false;
      count0 = add_count0 m.count0 (length input);
      count1 = add_count1 m.count0 m.count1 (length input);
      buffer = write_at m.buffer (index_of m.count0) input;
    }
unfolding update
update_short m input h =
    let t : leb (64 - index_of m.count0) (length input) ≡ false = ground arith in rw (t, update)

short-Holds :
    {m : Md5} {msg : Bytes} (input : Bytes) (v : Holds m msg)
    → length input + 63 < 2 ^ 32
    → length input < 64 - index_of m.count0
    → Holds (update m input) (msg ++ input)
short-Holds {m} {msg} input v small short =
    let i = index_of-Holds v in
    let (c0, c1) =
      add_counts m.count0 m.count1 (length msg) (length input) v.count0_is v.count1_is
        (omega arith) in
    rw (update_short m input short) (record {
      count = v.count;
      whole = v.whole;
      left = v.left ++ input;
      junk = drop (index_of m.count0 + length input) m.buffer;
      split = ap (λ t. t ++ input) v.split ∙ append_assoc v.whole v.left input;
      in_blocks = v.in_blocks;
      short = omega (arith, length-append v.left input, i);
      state_is = v.state_is;
      buffer_is = write_at-left m.buffer v.left v.junk input (index_of m.count0) v.buffer_is i;
      buffer_size =
          length-write_at m.buffer (index_of m.count0) input (omega (arith, v.buffer_size))
          ∙ v.buffer_size;
      count0_is = c0 ∙ ap (λ t. t * 8 % 2 ^ 32) (sym (length-append msg input));
      count1_is = c1 ∙ ap (λ t. t * 8 / 2 ^ 32 % 2 ^ 32) (sym (length-append msg input));
    })

-- the buffer filled up from the front of an input
abbrev pub filled : Md5 → Bytes → Bytes
filled m input = write_at m.buffer (index_of m.count0) (take (64 - index_of m.count0) input)

-- An input that fills the buffer: one block from the buffer, whole blocks of the input, and a rest.
pub update_long :
    (m : Md5) (input rest : Bytes) (w : Words)
    → 64 - index_of m.count0 ≤ length input
    → blocks (length input) (64 - index_of m.count0) (transform m.state (filled m input)) input
      ≡ (w, rest)
    → update m input ≡ record m {
      finished = false;
      count0 = add_count0 m.count0 (length input);
      count1 = add_count1 m.count0 m.count1 (length input);
      state = w;
      buffer = write_at (filled m input) 0 rest;
    }
unfolding update
update_long m input rest w h e =
    let t : leb (64 - index_of m.count0) (length input) ≡ true = ground arith in
    rw (t, update)
      (ap
        (λ (p : Words × Bytes). record m {
          finished = false;
          count0 = add_count0 m.count0 (length input);
          count1 = add_count1 m.count0 m.count1 (length input);
          state = p.0;
          buffer = write_at (filled m input) 0 p.1;
        })
        e)

pub drop_all : (n : ℕ) (s : Bytes) → length s ≤ n → drop n s ≡ []
drop_all zero [] h = refl
drop_all zero (c ∷ s) h = absurd (omega arith)
drop_all (suc n) [] h = refl
drop_all (suc n) (c ∷ s) h = drop_all n s (omega arith)

filled-Holds :
    {m : Md5} {msg : Bytes} (input : Bytes) (v : Holds m msg)
    → 64 - index_of m.count0 ≤ length input
    → (filled m input ≡ v.left ++ take (64 - index_of m.count0) input)
      × (length (filled m input) ≡ 64)
filled-Holds {m} {msg} input v h =
    let index = index_of m.count0 in
    let first = take (64 - index) input in
    let i : index ≡ length v.left = index_of-Holds v in
    let size : index + length first ≡ 64 = omega (arith, length-take (64 - index) input, v.short) in
    (
      write_at-left m.buffer v.left v.junk first index v.buffer_is i
          ∙ ap (λ t. (v.left ++ first) ++ t)
              (drop_all (index + length first) m.buffer (omega (arith, v.buffer_size)))
          ∙ append-nil (v.left ++ first),
      length-write_at m.buffer index first (omega (arith, v.buffer_size)) ∙ v.buffer_size,
    )

-- the message, cut at the ends of the blocks
regroup :
    (whole left first mid rest msg input : Bytes)
    → msg ≡ whole ++ left
    → input ≡ first ++ (mid ++ rest)
    → msg ++ input ≡ (whole ++ ((left ++ first) ++ mid)) ++ rest
regroup whole left first mid rest msg input e e' = rw (e, e') (simp append_assoc)

long-Holds :
    {m : Md5} {msg : Bytes} (input : Bytes) (v : Holds m msg)
    → length input + 63 < 2 ^ 32
    → 64 - index_of m.count0 ≤ length input
    → Holds (update m input) (msg ++ input)
long-Holds {m} {msg} input v small long =
    let part_len = 64 - index_of m.count0 in
    let first = take part_len input in
    let block = filled m input in
    let (block_is, block_size) = filled-Holds input v long in
    let (c0, c1) =
      add_counts m.count0 m.count1 (length msg) (length input) v.count0_is v.count1_is
        (omega arith) in
    let (mid, rest, k, split, in_blocks, short, e) =
      blocks_lem (length input) (transform m.state block) (drop part_len input)
        (omega (arith, length-drop part_len input)) in
    rw
      (update_long m input rest (chain k (transform m.state block) mid) long (
        blocks-whole_blocks (length input) part_len (transform m.state block) input small long ∙ e))
      (record {
        count = v.count + suc k;
        whole = v.whole ++ (block ++ mid);
        left = rest;
        junk = drop (0 + length rest) block;
        split =
            regroup v.whole v.left first mid rest msg input v.split
              (sym (take-append-drop part_len input) ∙ ap (◌++◌ first) split)
            ∙ ap (λ b. (v.whole ++ (b ++ mid)) ++ rest) (sym block_is);
        in_blocks =
            omega
              (arith, length-append v.whole (block ++ mid), length-append block mid, v.in_blocks);
        short = short;
        state_is =
            sym (chain_block k m.state block mid block_size)
            ∙ ap (λ w. chain (suc k) w (block ++ mid)) v.state_is
            ∙ sym (chain-append v.count initial v.whole (block ++ mid) (suc k) v.in_blocks);
        buffer_is = refl;
        buffer_size = length-write_at block 0 rest (omega arith) ∙ block_size;
        count0_is = c0 ∙ ap (λ t. t * 8 % 2 ^ 32) (sym (length-append msg input));
        count1_is = c1 ∙ ap (λ t. t * 8 / 2 ^ 32 % 2 ^ 32) (sym (length-append msg input));
      })

-- `update` adds its input to the message that the object holds, at whatever place of a block the
-- message ends; the input is shorter than 2 ^ 32 - 63 bytes.
pub update-Holds :
    {m : Md5} {msg : Bytes} (input : Bytes)
    → Holds m msg
    → length input + 63 < 2 ^ 32
    → Holds (update m input) (msg ++ input)
update-Holds {m} {msg} input v small =
    elim (Bool-cases (leb (64 - index_of m.count0) (length input))) [
      | inl long ↦ long-Holds input v small (ground arith)
      | inr short ↦ short-Holds input v small (ground arith)
    ]

-- After `reset` the object holds the empty message.
pub reset-Holds : (m : Md5) → length m.buffer ≡ 64 → Holds (reset m) []
unfolding reset chain
reset-Holds m h = record {
  count = 0;
  whole = [];
  left = [];
  junk = m.buffer;
  split = refl;
  in_blocks = omega arith;
  short = omega arith;
  state_is = refl;
  buffer_is = refl;
  buffer_size = h;
  count0_is = refl;
  count1_is = refl;
}
