-- ===== src/Base/Decimal.antt =====
-- How the languages print a whole number, in decimal digits.
use Prim.Native.Char.{Char, char, code, nul}
use Prim.Native.Nat.{ℕ, zero, suc, ◌+◌, ◌/◌, ◌%◌, ◌<◌}
use Prim.Native.String.{String}
use native.Mathlib.Omega.{arith}
use mathlib.Core.List.{List, [], ◌∷◌}
use mathlib.Core.Path.{◌≡◌, refl}
use mitigador.Base.Tests.{ltb, if◌then◌else◌}
use mitigador.Base.Lists.{get_or, length}

abbrev digit_chars : List Char
digit_chars =
    char 48 tt
    ∷ char 49 tt
    ∷ char 50 tt
    ∷ char 51 tt
    ∷ char 52 tt
    ∷ char 53 tt
    ∷ char 54 tt
    ∷ char 55 tt
    ∷ char 56 tt
    ∷ char 57 tt
    ∷ []

unfoldable pub digit : ℕ → Char
digit d = get_or digit_chars d nul

-- The numbers of the characters count up from one on.
abbrev CountsUp : ℕ → List Char → Type 0
CountsUp n [] = Unit
CountsUp n (c ∷ cs) = (code c ≡ n) × CountsUp (suc n) cs

code-get_or :
    (n d : ℕ) (cs : List Char) → CountsUp n cs → d < length cs → code (get_or cs d nul) ≡ n + d
code-get_or n d [] h k = elim k [ ]
code-get_or n zero (c ∷ cs) h k = omega (arith, h.0)
code-get_or n (suc d) (c ∷ cs) h k = omega (arith, code-get_or (suc n) d cs h.1 (omega arith))

pub code-digit : (d : ℕ) → d < 10 → code (digit d) ≡ 48 + d
unfolding digit
code-digit d h =
    code-get_or 48 d digit_chars
      (refl, (refl, (refl, (refl, (refl, (refl, (refl, (refl, (refl, (refl, tt))))))))))
      (omega arith)

-- The digits of a number in front of a text. The fuel is enough if it is more than the number.
unfoldable pub show_before : ℕ → ℕ → String → String
unfolding digit
show_before zero n s = s
show_before (suc fuel) n s =
    let rest = show_before fuel (n / 10) (String.◌∷◌ (digit (n % 10)) s) in
    if ltb n 10 then String.◌∷◌ (digit n) s else rest

unfoldable pub show : ℕ → String
unfolding show_before
show n = show_before (suc n) n ""
