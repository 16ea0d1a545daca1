-- ===== src/Views/Analytics/Flags.antt =====
-- The flag of a country (`flagEmoji` of web/src/views/AnalyticsView.vue), as the list of its code
-- points.
use Prim.Native.Char.{Char, code}
use mitigador.Base.{ℕ, ◌+◌, ◌-◌, ◌/◌, ◌%◌, String, List, [], ◌∷◌, ◌++◌, ltb, if◌then◌else◌, ◌==◌}

-- The code units that `length` and `charCodeAt` count: two for a character beyond 65535.
code_units : Char → List ℕ
code_units c =
    if ltb (code c) 65536
    then code c ∷ []
    else (55296 + (code c - 65536) / 1024) ∷ (56320 + (code c - 65536) % 1024) ∷ []

unfoldable pub units : String → List ℕ
unfolding code_units
units String.[] = []
units (String.◌∷◌ c s) = code_units c ++ units s

-- The white flag.
abbrev white_flag : List ℕ
white_flag = 127987 ∷ []

abbrev pub regional_a : ℕ
regional_a = 127462

two_letters : List ℕ → List ℕ
two_letters (a ∷ b ∷ []) = (regional_a + a - 65) ∷ (regional_a + b - 65) ∷ []
two_letters _ = white_flag

unfoldable pub flag_emoji : String → List ℕ
unfolding units two_letters
flag_emoji iso = if iso == "??" then white_flag else two_letters (units iso)
