-- ===== src/Format/Rates.antt =====
-- The formatters of rates and sizes, one for each page that has its own.
use mitigador.Base.{ℕ, String, Bool, true, false, [], ◌∷◌, leb, if◌then◌else◌}
use mitigador.Format.{num, fixed, text, Label, Rounding}

module _ (r : Rounding) where
  -- `(v / d).toFixed(digits) + unit`
  abbrev in_units : ℕ → ℕ → ℕ → String → Label
  in_units v d digits unit = fixed (r.to_fixed v d digits) digits ∷ text unit ∷ []

  -- web/src/views/DashboardView.vue
  unfoldable pub format_bps : ℕ → Label
  format_bps bps =
      if leb 1_000_000_000 bps
      then in_units bps 1_000_000_000 1 " Gbps"
      else if leb 1_000_000 bps
      then in_units bps 1_000_000 1 " Mbps"
      else if leb 1_000 bps
      then in_units bps 1_000 1 " Kbps"
      else num bps ∷ text " bps" ∷ []

  unfoldable pub format_pps : ℕ → Label
  format_pps pps =
      if leb 1_000_000 pps
      then in_units pps 1_000_000 1 "M"
      else if leb 1_000 pps
      then in_units pps 1_000 1 "K"
      else num pps ∷ []

  -- web/src/views/IncidentListView.vue and IncidentDetailView.vue, which have the same `formatBps`
  unfoldable pub format_pps_unit : ℕ → Label
  format_pps_unit pps =
      if leb 1_000_000 pps
      then in_units pps 1_000_000 1 "M pps"
      else if leb 1_000 pps
      then in_units pps 1_000 1 "K pps"
      else num pps ∷ text " pps" ∷ []

  -- web/src/views/FlowsDashboardView.vue and AnalyticsView.vue
  unfoldable pub format_bps_fine : ℕ → Label
  format_bps_fine bps =
      if leb 1_000_000_000 bps
      then in_units bps 1_000_000_000 2 " Gbps"
      else if leb 1_000_000 bps
      then in_units bps 1_000_000 2 " Mbps"
      else if leb 1_000 bps
      then in_units bps 1_000 1 " Kbps"
      else num bps ∷ text " bps" ∷ []

  unfoldable pub format_pps_fine : ℕ → Label
  format_pps_fine pps =
      if leb 1_000_000 pps
      then in_units pps 1_000_000 2 " Mpps"
      else if leb 1_000 pps
      then in_units pps 1_000 1 " Kpps"
      else num pps ∷ text " pps" ∷ []

  unfoldable pub format_bytes : ℕ → Label
  format_bytes bytes =
      if leb 1_000_000_000 bytes
      then in_units bytes 1_000_000_000 2 " GB"
      else if leb 1_000_000 bytes
      then in_units bytes 1_000_000 1 " MB"
      else if leb 1_000 bytes
      then in_units bytes 1_000 1 " KB"
      else num bytes ∷ text " B" ∷ []

  -- web/src/components/HostTrafficChart.vue, whose mode is bits (`true`) or packets
  unfoldable pub format_y : Bool → ℕ → Label
  format_y true v =
      if leb 1_000_000_000 v
      then in_units v 1_000_000_000 1 " Gbps"
      else if leb 1_000_000 v
      then in_units v 1_000_000 1 " Mbps"
      else if leb 1_000 v
      then in_units v 1_000 1 " Kbps"
      else fixed v 0 ∷ text " bps" ∷ []
  format_y false v =
      if leb 1_000_000 v
      then in_units v 1_000_000 1 "M"
      else if leb 1_000 v
      then in_units v 1_000 1 "K"
      else fixed v 0 ∷ []
