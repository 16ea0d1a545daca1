-- ===== src/Components/Chart.antt =====
-- The stacked chart of a host's traffic (web/src/components/HostTrafficChart.vue). The package
-- `uplot` draws; the chart here is the mode and the data that it was given.
pub mod Stacking
pub mod Lifecycle
use mitigador.Base.{
  ℕ, zero, suc, ◌+◌, ◌-◌, Bool, true, false, Option, none, some, List, [], ◌∷◌, length, get_elem?,
  if◌then◌else◌, is_some,
}
use mitigador.Api.Traffic.{HostBucket}

pub data Mode : Type 0 where
  bps pps : Mode

-- A time on the horizontal axis, the given number of seconds before now.
pub data Time : Type 0 where
  before : ℕ → Time

-- One column of the aligned data: the time, and the three stacked values.
pub record Column : Type 0 where
  pub x : Time
  pub udp : ℕ
  pub udp_icmp : ℕ
  pub total : ℕ

unfoldable pub udp_of : Mode → HostBucket → ℕ
udp_of bps b = b.bps_udp
udp_of pps b = b.pps_udp

unfoldable pub icmp_of : Mode → HostBucket → ℕ
icmp_of bps b = b.bps_icmp
icmp_of pps b = b.pps_icmp

unfoldable pub other_of : Mode → HostBucket → ℕ
other_of bps b = b.bps_other
other_of pps b = b.pps_other

unfoldable pub column : Mode → HostBucket → Column
unfolding udp_of icmp_of other_of
column mode src = record {
  x = before src.offset_s;
  udp = udp_of mode src;
  udp_icmp = udp_of mode src + icmp_of mode src;
  total = udp_of mode src + icmp_of mode src + other_of mode src;
}

push : Option Column → Option (List Column) → Option (List Column)
push (some c) (some cs) = some (c ∷ cs)
push _ _ = none

column_at : Mode → Option HostBucket → Option Column
column_at mode none = none
column_at mode (some src) = some (column mode src)

-- The loop of `buildData` from `i` on, with the rounds that are left; `none` is an index out of
-- range.
unfoldable pub build_from : Mode → List HostBucket → ℕ → ℕ → Option (List Column)
unfolding push column_at
build_from mode buckets zero i = some []
build_from mode buckets (suc rounds) i =
    push (column_at mode (get_elem? buckets (length buckets - 1 - i)))
      (build_from mode buckets rounds (i + 1))

unfoldable pub build_data : Mode → List HostBucket → Option (List Column)
unfolding build_from
build_data mode buckets = build_from mode buckets (length buckets) 0
