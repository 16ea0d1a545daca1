-- ===== src/Views/Settings/Blank.antt =====
-- Texts of nothing but white space, which `trim` makes empty.
use Prim.Native.Char.{Char, code}
use mitigador.Base.{String, Bool, true, ◌&&◌, ◌||◌, eqb, leb}

-- The language's white space and line ends.
is_space : Char → Bool
is_space c =
    (leb 9 (code c) && leb (code c) 13)
    || eqb (code c) 32
    || eqb (code c) 160
    || eqb (code c) 5760
    || (leb 8192 (code c) && leb (code c) 8202)
    || eqb (code c) 8232
    || eqb (code c) 8233
    || eqb (code c) 8239
    || eqb (code c) 8287
    || eqb (code c) 12288
    || eqb (code c) 65279

-- `!s.trim()`
unfoldable pub is_blank : String → Bool
unfolding is_space
is_blank String.[] = true
is_blank (String.◌∷◌ c s) = is_space c && is_blank s
