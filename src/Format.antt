-- ===== src/Format.antt =====
-- The texts that the pages show for rates, sizes and times (the formatters of web/src/views and
-- web/src/components). A text is the list of the pieces that the code joins.
pub mod Rates
pub mod Accuracy
pub mod Duration
pub mod Spans
use mitigador.Base.{ℕ, ◌+◌, ◌*◌, ◌^◌, ◌≤◌, ◌<◌, String, List}

-- A number printed as it is, one printed with `toFixed(digits)` and given in units of its last
-- digit, a negative number given by its absolute value, a fixed text,
-- and the translation of a key.
pub data Piece : Type 0 where
  num : ℕ → Piece
  fixed : ℕ → ℕ → Piece
  minus : ℕ → Piece
  text : String → Piece
  translated : String → Piece

abbrev pub Label : Type 0
Label = List Piece

-- The largest number that the formatters are considered at: ten terabits per second.
abbrev pub limit : ℕ
limit = 10 ^ 13

-- The language's `(v / d).toFixed(digits)`, in units of the last digit. The quotient is a floating
-- point number. Up to `limit` its error is too small to change which decimal number is the nearest;
-- only of two that are equally near either one may come out.
pub record Rounding : Type 0 where
  pub to_fixed : ℕ → ℕ → ℕ → ℕ
  pub above :
      (v d digits : ℕ)
      → 0 < d
      → v ≤ limit
      → 2 * (d * to_fixed v d digits) ≤ 2 * (v * 10 ^ digits) + d
  pub below :
      (v d digits : ℕ)
      → 0 < d
      → v ≤ limit
      → 2 * (v * 10 ^ digits) ≤ 2 * (d * to_fixed v d digits) + d
