-- ===== src/Tests/Format.antt =====
-- Runs of the formatters.
use native.Mathlib.Nat.{div-add-mod, mod-lt}
use mitigador.Base.{ℕ, ◌+◌, ◌*◌, ◌/◌, ◌^◌, ◌≤◌, ◌<◌, [], ◌∷◌, ◌≡◌, refl, arith}
use mitigador.Format.{fixed, text, Rounding}
use mitigador.Format.Rates.{
  format_bps, format_pps, format_pps_unit, format_bps_fine, format_pps_fine, format_bytes,
}
use mitigador.Format.Accuracy.{IsNear, format-IsNear}

pub half_up : ℕ → ℕ → ℕ → ℕ
half_up v d digits = (2 * (v * 10 ^ digits) + d) / (2 * d)

pub half_up-mod :
    (v d digits : ℕ)
    → 0 < d
    → (2 * d * half_up v d digits ≤ 2 * (v * 10 ^ digits) + d)
      × (2 * (v * 10 ^ digits) + d < 2 * d * half_up v d digits + 2 * d)
unfolding half_up
half_up-mod v d digits h =
    let n = 2 * (v * 10 ^ digits) + d in
    omega (arith, div-add-mod n (2 * d), mod-lt n {m = 2 * d} (omega arith))

-- Rounding half up is one such rounding.
abbrev pub exact : Rounding
exact = record {
  to_fixed = half_up;
  above = λ v d digits pos small. omega (arith, half_up-mod v d digits pos);
  below = λ v d digits pos small. omega (arith, half_up-mod v d digits pos);
}

rates :
    (format_bps exact 1_250_000 ≡ fixed 13 1 ∷ text " Mbps" ∷ [])
    × (format_bytes exact 1_250_000_000 ≡ fixed 125 2 ∷ text " GB" ∷ [])
unfolding format_bps format_bytes half_up
rates = (refl, refl)

format-IsNear_example :
    IsNear 1_250_000 (format_bps exact 1_250_000)
    × IsNear 1_250_000 (format_pps exact 1_250_000)
    × IsNear 1_250_000 (format_pps_unit exact 1_250_000)
    × IsNear 1_250_000 (format_bps_fine exact 1_250_000)
    × IsNear 1_250_000 (format_pps_fine exact 1_250_000)
    × IsNear 1_250_000 (format_bytes exact 1_250_000)
format-IsNear_example = format-IsNear exact 1_250_000 (omega arith)
