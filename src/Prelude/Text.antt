-- ===== src/Prelude/Text.antt =====
-- Texts as the program compares them: whole, or by code points where it looks inside.
use Prim.Native.Nat.{ℕ, ◌+◌}
use Prim.Native.Char.{code}
use Prim.Native.String.{String}
use mathlib.Core.Path.{◌≡◌, refl}
use mathlib.Core.Bool.{Bool, true, false, ◌&&◌, ◌||◌}
use mathlib.Core.List.{List, [], ◌∷◌, ◌++◌}
use native.Mathlib.Omega.{arith}
use text.Mathlib.Text.{◌==◌}
use agent_routebench.Prelude.Tests.{leb, nat_eq, if◌then◌else◌}

-- `Set.prototype.has` and `Array.prototype.includes`.
abbrev pub includes : String → List String → Bool
includes s [] = false
includes s (x ∷ xs) = x == s || includes s xs

-- No text occurs twice.
abbrev pub IsDistinct : List String → Type 0
IsDistinct [] = Unit {0}
IsDistinct (x ∷ xs) = (includes x xs ≡ false) × IsDistinct xs

pub includes-append :
    (s : String) (xs ys : List String) → includes s (xs ++ ys) ≡ (includes s xs || includes s ys)
includes-append s [] ys = refl
includes-append s (x ∷ xs) ys = ground (arith, includes-append s xs ys)

abbrev pub codes : String → List ℕ
codes (String.◌∷◌ letter rest) = code letter ∷ codes rest
codes String.[] = []

abbrev pub codes_eq : List ℕ → List ℕ → Bool
codes_eq [] [] = true
codes_eq [] (_ ∷ _) = false
codes_eq (_ ∷ _) [] = false
codes_eq (c ∷ cs) (d ∷ ds) = nat_eq c d && codes_eq cs ds

abbrev pub includes_codes : List ℕ → List (List ℕ) → Bool
includes_codes s [] = false
includes_codes s (x ∷ xs) = codes_eq x s || includes_codes s xs

-- `text.includes("\u0000")`.
abbrev pub has_zero : List ℕ → Bool
has_zero [] = false
has_zero (c ∷ cs) = nat_eq c 0 || has_zero cs

-- `String.prototype.toLowerCase`, as far as a comparison with an ASCII text can tell: the Kelvin
-- sign is the only code point beyond ASCII that becomes one ASCII letter.
abbrev pub lower_code : ℕ → ℕ
lower_code c = if leb b'A' c && leb c b'Z' then c + 32 else if nat_eq c 0x212a then b'k' else c

abbrev pub to_lower_case : List ℕ → List ℕ
to_lower_case [] = []
to_lower_case (c ∷ cs) = lower_code c ∷ to_lower_case cs
