-- ===== src/Base/Text.antt =====
-- Byte strings: `std::string` and `char` buffers as lists of numbers below 256, and the members of
-- `std::string` that the program calls.
use Prim.Native.Nat.{ℕ, suc, ◌<◌}
use Prim.Native.Char.{code}
use Prim.Native.String.{String}
use mathlib.Core.Bool.{Bool, true, false, ◌&&◌, ◌||◌}
use mathlib.Core.List.{List, [], ◌∷◌}
use mathlib.Core.Logic.{◌↔◌}
use mathlib.Core.Option
use mathlib.Core.Option.{Option, none, some}
use mathlib.Core.Path.{◌≡◌, refl}
use native.Mathlib.Omega.{arith}
use studytest.Base.Tests.{◌==◌, if◌then◌else◌}

abbrev pub Bytes : Type 0
Bytes = List ℕ

abbrev pub codes : String → Bytes
codes String.[] = []
codes (String.◌∷◌ c s) = code c ∷ codes s

abbrev pub IsByte : ℕ → Type 0
IsByte c = c < 256

-- `list.find(c) != npos`, for a single character
abbrev pub has : Bytes → ℕ → Bool
has [] c = false
has (d ∷ ds) c = d == c || has ds c

abbrev pub starts_with : Bytes → Bytes → Bool
starts_with [] s = true
starts_with (d ∷ ds) [] = false
starts_with (d ∷ ds) (c ∷ s) = d == c && starts_with ds s

-- `str.find(delim)`: the first position where `delim` occurs, or npos
abbrev pub find : Bytes → Bytes → Option ℕ
find [] d = if starts_with d [] then some 0 else none
find (c ∷ s) d = if starts_with d (c ∷ s) then some 0 else Option.map suc (find s d)

-- `a.compare(b) == 0`
abbrev pub same : Bytes → Bytes → Bool
same [] [] = true
same [] (d ∷ ds) = false
same (c ∷ cs) [] = false
same (c ∷ cs) (d ∷ ds) = c == d && same cs ds

pub same_iff : (a b : Bytes) → (same a b ≡ true) ↔ (a ≡ b)
same_iff [] [] = (λ _. refl, λ _. refl)
same_iff [] (d ∷ ds) = (λ h. cc, λ h. cc)
same_iff (c ∷ cs) [] = (λ h. cc, λ h. cc)
same_iff (c ∷ cs) (d ∷ ds) =
    (λ h. ground (arith, same_iff cs ds), λ h. ground (arith, same_iff cs ds))
