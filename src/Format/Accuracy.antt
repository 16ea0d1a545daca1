-- ===== src/Format/Accuracy.antt =====
-- How near the shown rates are to the rates (the formatters of web/src/views).
use native.Mathlib.Decide.{ℕ_discrete}
use mitigador.Base.{
  ℕ, zero, suc, ◌/◌, ◌||◌, ◌*◌, ◌≤◌, ◌<◌, String, [], ◌∷◌, ◌≡◌, arith, if◌then◌else◌, ◌==◌,
}
use mitigador.Format.{num, fixed, text, Label, Rounding, limit}
use mitigador.Format.Rates.{
  format_bps, format_pps, format_pps_unit, format_bps_fine, format_pps_fine, format_bytes,
}

-- How many hundredths a unit stands for.
abbrev hundredths : String → ℕ
hundredths unit =
    if unit == " Gbps" || unit == " GB"
    then 100_000_000_000
    else if unit == " Mbps" || unit == "M" || unit == "M pps" || unit == " Mpps" || unit == " MB"
    then 100_000_000
    else if unit == " Kbps" || unit == "K" || unit == "K pps" || unit == " Kpps" || unit == " KB"
    then 100_000
    else 100

-- A hundred times what a reader takes a text to say.
abbrev pub reading : Label → ℕ
reading (num n ∷ _) = n * 100
reading (fixed n zero ∷ text unit ∷ _) = n * hundredths unit
reading (fixed n (suc zero) ∷ text unit ∷ _) = n * (hundredths unit / 10)
reading (fixed n (suc (suc zero)) ∷ text unit ∷ _) = n * (hundredths unit / 100)
reading _ = 0

-- The text says a number that is within a twentieth of `v`.
pub record IsNear (v : ℕ) (shown : Label) : Type 0 where
  pub high : 20 * reading shown ≤ 2100 * v
  pub low : 1900 * v ≤ 20 * reading shown

module _ (r : Rounding) (v : ℕ) (small : v ≤ limit) where
  pub format_bps-IsNear : IsNear v (format_bps r v)
  unfolding format_bps
  format_bps-IsNear = ground (
    arith,
    r.above v 1_000_000_000 1,
    r.below v 1_000_000_000 1,
    r.above v 1_000_000 1,
    r.below v 1_000_000 1,
    r.above v 1_000 1,
    r.below v 1_000 1,
  )

  pub format_pps-IsNear : IsNear v (format_pps r v)
  unfolding format_pps
  format_pps-IsNear = ground (
    arith,
    r.above v 1_000_000_000 1,
    r.below v 1_000_000_000 1,
    r.above v 1_000_000 1,
    r.below v 1_000_000 1,
    r.above v 1_000 1,
    r.below v 1_000 1,
  )

  pub format_pps_unit-IsNear : IsNear v (format_pps_unit r v)
  unfolding format_pps_unit
  format_pps_unit-IsNear = ground (
    arith,
    r.above v 1_000_000_000 1,
    r.below v 1_000_000_000 1,
    r.above v 1_000_000 1,
    r.below v 1_000_000 1,
    r.above v 1_000 1,
    r.below v 1_000 1,
  )

  pub format_bps_fine-IsNear : IsNear v (format_bps_fine r v)
  unfolding format_bps_fine
  format_bps_fine-IsNear = ground (
    arith,
    r.above v 1_000_000_000 2,
    r.below v 1_000_000_000 2,
    r.above v 1_000_000 2,
    r.below v 1_000_000 2,
    r.above v 1_000 1,
    r.below v 1_000 1,
  )

  pub format_pps_fine-IsNear : IsNear v (format_pps_fine r v)
  unfolding format_pps_fine
  format_pps_fine-IsNear = ground (
    arith,
    r.above v 1_000_000_000 2,
    r.below v 1_000_000_000 2,
    r.above v 1_000_000 2,
    r.below v 1_000_000 2,
    r.above v 1_000 1,
    r.below v 1_000 1,
  )

  pub format_bytes-IsNear : IsNear v (format_bytes r v)
  unfolding format_bytes
  format_bytes-IsNear = ground (
    arith,
    r.above v 1_000_000_000 2,
    r.below v 1_000_000_000 2,
    r.above v 1_000_000 1,
    r.below v 1_000_000 1,
    r.above v 1_000 1,
    r.below v 1_000 1,
  )

  -- Every formatter of every page shows a number that is within a twentieth of the rate or size,
  -- up to ten terabits per second.
  pub format-IsNear :
      IsNear v (format_bps r v)
      × IsNear v (format_pps r v)
      × IsNear v (format_pps_unit r v)
      × IsNear v (format_bps_fine r v)
      × IsNear v (format_pps_fine r v)
      × IsNear v (format_bytes r v)
  format-IsNear = (
    format_bps-IsNear, format_pps-IsNear, format_pps_unit-IsNear, format_bps_fine-IsNear,
    format_pps_fine-IsNear, format_bytes-IsNear,
  )

  -- Just below a million bits per second the page shows "1000.0 Kbps": the unit is chosen before
  -- the number is rounded.
  format_bps_rollover :
      999_951 ≤ v → v < 1_000_000 → format_bps r v ≡ fixed 10_000 1 ∷ text " Kbps" ∷ []
  unfolding format_bps
  format_bps_rollover lo hi = ground (arith, r.above v 1_000 1, r.below v 1_000 1)

module _ (r : Rounding) where
  -- A larger rate never shows as a smaller number, across the changes of unit too.
  format_bps_mono :
      (v w : ℕ) → v ≤ w → w ≤ limit → reading (format_bps r v) ≤ reading (format_bps r w)
  unfolding format_bps
  format_bps_mono v w h small = elim (ℕ_discrete v w) [
    | yes same ↦ rw same (omega arith)
    | no other ↦ ground (
      arith,
      r.above v 1_000_000_000 1,
      r.below w 1_000_000_000 1,
      r.above v 1_000_000 1,
      r.below w 1_000_000 1,
      r.above v 1_000 1,
      r.below w 1_000 1,
    )
  ]
