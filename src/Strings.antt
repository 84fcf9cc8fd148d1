-- ===== src/Strings.antt =====
-- down_parse_client/utils/Utils.cpp: trimming and splitting of `std::string`. What each function
-- does is proved in the modules below.
pub mod Trim
pub mod Split
pub mod Ends
pub mod Cuts
pub mod Parts
mod Tests
use studytest.Base.{
  ℕ, zero, suc, ◌+◌, List, [], ◌∷◌, ◌++◌, map, reverse, Bool, ◌&&◌, some, none, length, take, drop,
  Bytes, ltb, ◌==◌, if◌then◌else◌, has, find,
}

-- How a trimming loop ends: it leaves a string, it reads the character before the first one, or it
-- runs for ever, since `erase(0,1)` leaves the empty string as it is.
pub data Outcome : Type 0 where
  leaves : Bytes → Outcome
  strays : Outcome
  hangs : Outcome

-- `while(str[0] is dropped) str.erase(0,1);`: past the last character `str[0]` is the byte 0.
pub ltrim_loop : (ℕ → Bool) → Bytes → Outcome
ltrim_loop dropped [] = if dropped 0 then hangs else leaves []
ltrim_loop dropped (c ∷ s) = if dropped c then ltrim_loop dropped s else leaves (c ∷ s)

-- `i = length-1; while(str[i] is dropped) { str.erase(i,1); i = length-1; }`, over the string read
-- from its end: on the empty string `i` is -1, and what `str[-1]` holds is not determined.
pub rtrim_loop : (ℕ → Bool) → Bytes → Outcome
rtrim_loop dropped [] = strays
rtrim_loop dropped (c ∷ s) = if dropped c then rtrim_loop dropped s else leaves (reverse (c ∷ s))

-- `str[i] == ch` for an `int ch` of 0 or more: a byte of 128 or more is a negative `char`.
unfoldable pub is_char : ℕ → ℕ → Bool
is_char ch c = ltb c 128 && c == ch

-- `trim(string&, int ch)` behind its first loop: the string may be empty by now.
pub then_rtrim : (ℕ → Bool) → Outcome → Outcome
then_rtrim dropped (leaves s) = rtrim_loop dropped (reverse s)
then_rtrim dropped strays = strays
then_rtrim dropped hangs = hangs

-- `trim(string&, const string&)` behind its first loop, with its return on the empty string.
pub then_rtrim_checked : (ℕ → Bool) → Outcome → Outcome
then_rtrim_checked dropped (leaves []) = leaves []
then_rtrim_checked dropped (leaves (c ∷ s)) = rtrim_loop dropped (reverse (c ∷ s))
then_rtrim_checked dropped strays = strays
then_rtrim_checked dropped hangs = hangs

pub ltrim_char : Bytes → ℕ → Outcome
unfolding ltrim_loop is_char
ltrim_char [] ch = leaves []
ltrim_char (c ∷ s) ch = ltrim_loop (is_char ch) (c ∷ s)

pub ltrim : Bytes → Bytes → Outcome
unfolding ltrim_loop
ltrim [] list = leaves []
ltrim (c ∷ s) [] = leaves (c ∷ s)
ltrim (c ∷ s) (d ∷ ds) = ltrim_loop (has (d ∷ ds)) (c ∷ s)

unfoldable pub trim_char : Bytes → ℕ → Outcome
unfolding ltrim_loop rtrim_loop then_rtrim is_char
trim_char [] ch = leaves []
trim_char (c ∷ s) ch = then_rtrim (is_char ch) (ltrim_loop (is_char ch) (c ∷ s))

unfoldable pub trim : Bytes → Bytes → Outcome
unfolding ltrim_loop rtrim_loop then_rtrim_checked
trim [] list = leaves []
trim (c ∷ s) [] = leaves (c ∷ s)
trim (c ∷ s) (d ∷ ds) = then_rtrim_checked (has (d ∷ ds)) (ltrim_loop (has (d ∷ ds)) (c ∷ s))

pub rtrim_char : Bytes → ℕ → Outcome
unfolding rtrim_loop is_char
rtrim_char [] ch = leaves []
rtrim_char (c ∷ s) ch = rtrim_loop (is_char ch) (reverse (c ∷ s))

unfoldable pub rtrim : Bytes → Bytes → Outcome
unfolding rtrim_loop
rtrim [] list = leaves []
rtrim (c ∷ s) [] = leaves (c ∷ s)
rtrim (c ∷ s) (d ∷ ds) = rtrim_loop (has (d ∷ ds)) (reverse (c ∷ s))

-- The loop of `explode`: each round cuts off what stands before the delimiter. The fuel counts the
-- rounds; every round but the last shortens the string, so its length and one more are enough.
pub cut : ℕ → Bytes → Bytes → List Bytes → List Bytes
cut zero str delim ret = ret ++ str ∷ []
cut (suc f) str delim ret = elim (find str delim) [
  | none ↦ ret ++ str ∷ []
  | some pos ↦
      let tmp = take pos str in cut f (drop (length tmp + length delim) str) delim (ret ++ tmp ∷ [])
]

-- `explode(obj_str, delim, ret)`, which adds to what `ret` holds.
unfoldable pub explode : Bytes → Bytes → List Bytes → List Bytes
unfolding cut
explode [] delim ret = ret
explode (c ∷ s) [] ret = ret ++ map (λ b. b ∷ []) (c ∷ s)
explode (c ∷ s) (d ∷ ds) ret = cut (suc (length (c ∷ s))) (c ∷ s) (d ∷ ds) ret
