-- ===== src/Tests/Chart.antt =====
-- Runs of the chart.
use mitigador.Base.{ℕ, false, none, some, List, [], ◌∷◌, map, reverse, ◌≡◌, refl}
use mitigador.Api.Traffic.{HostBucket}
use mitigador.Components.Chart.{bps, pps, before, column, build_data}
use mitigador.Components.Chart.Stacking.{build_data_lem}
use mitigador.Components.Chart.Lifecycle.{
  create, update_buckets, to_buckets, to_mode, run, IsCurrent, run-IsCurrent, run_late,
}

abbrev bucket : ℕ → ℕ → HostBucket
bucket s n = record {
  offset_s = s;
  pps = n;
  bps = n;
  pps_udp = n;
  bps_udp = n;
  pps_icmp = 1;
  bps_icmp = 1;
  pps_other = 2;
  bps_other = 2;
}

abbrev minute : List HostBucket
minute = bucket 0 10 ∷ bucket 1 20 ∷ []

two_columns :
    build_data bps minute
    ≡ some (
        record { x = before 1; udp = 20; udp_icmp = 21; total = 23 }
        ∷ record { x = before 0; udp = 10; udp_icmp = 11; total = 13 }
        ∷ [])
unfolding build_data column
two_columns = refl

build_data_lem_example : build_data pps minute ≡ some (map (column pps) (reverse minute))
build_data_lem_example = build_data_lem pps minute

run-IsCurrent_example :
    IsCurrent (run (to_mode pps ∷ to_buckets [] ∷ to_buckets minute ∷ []) (create bps minute))
run-IsCurrent_example =
    run-IsCurrent bps minute (to_mode pps ∷ to_buckets [] ∷ to_buckets minute ∷ [])

run_late_example :
    ((run (to_buckets minute ∷ []) (create bps [])).observer ≡ false)
    × ((update_buckets minute (create bps [])).chart ≡ none)
run_late_example = run_late bps (to_buckets minute ∷ []) (bucket 0 10) (bucket 1 20 ∷ [])
