-- ===== src/Views/Flows/Charts.antt =====
-- The chart of the whole traffic and the sparklines of the hosts
-- (web/src/views/FlowsDashboardView.vue).
use mitigador.Base.{
  ℕ, suc, ◌+◌, ◌-◌, ◌*◌, ◌≤◌, ◌<◌, ◌≡◌, Option, some, none, ◌∙◌, List, [], ◌∷◌, reverse, length,
  refl, arith, All, length-reverse, map_from, length-map_from,
}
use mitigador.Api.Dashboard.{DashboardOverview, DashboardBucket}
use mitigador.Api.Traffic.{HostBucket}
use mitigador.Components.Chart.{Mode, Column, build_data}
use mitigador.Components.Chart.Stacking.{GoesBack, GoesForward, IsStacked, build_data_ordered}
use mitigador.Views.Flows.Shares.{max_of-above}
use mitigador.Views.Flows.{
  Flows, global_bucket, buckets_of, global_buckets, max_of, Point, spark_point, spark_path,
}

map_from-later :
    (n i : ℕ) (bs : List DashboardBucket)
    → n < i
    → All (λ (c : HostBucket). n < c.offset_s) (map_from global_bucket i bs)
map_from-later n i [] h = tt
map_from-later n i (b ∷ bs) h = (h, map_from-later n (suc i) bs (omega arith))

map_from-GoesBack : (i : ℕ) (bs : List DashboardBucket) → GoesBack (map_from global_bucket i bs)
map_from-GoesBack i [] = tt
map_from-GoesBack i (b ∷ bs) =
    (map_from-later i (suc i) bs (omega arith), map_from-GoesBack (suc i) bs)

abbrev pub bucket_count : Option DashboardOverview → ℕ
bucket_count none = 0
bucket_count (some ov) = length ov.buckets

buckets_of-GoesBack : (o : Option DashboardOverview) → GoesBack (buckets_of o)
unfolding buckets_of
buckets_of-GoesBack none = tt
buckets_of-GoesBack (some ov) = map_from-GoesBack 0 ov.buckets

length-buckets_of : (o : Option DashboardOverview) → length (buckets_of o) ≡ bucket_count o
unfolding buckets_of
length-buckets_of none = refl
length-buckets_of (some ov) = length-map_from global_bucket 0 ov.buckets

-- The chart of the whole traffic is drawn from one column for each bucket of the overview; the
-- columns go forward in time, and the three values of each lie on one another.
build_data-global_buckets :
    (mode : Mode) (p : Flows)
    → (columns : List Column) × (build_data mode (global_buckets p) ≡ some columns)
      × GoesForward columns
      × All IsStacked columns
      × (length columns ≡ bucket_count p.overview)
unfolding global_buckets
build_data-global_buckets mode p =
    let (columns, built, forward, stacked, count) =
      build_data_ordered mode (buckets_of p.overview) (buckets_of-GoesBack p.overview) in
    (columns, built, forward, stacked, count ∙ length-buckets_of p.overview)

-- A point lies in the picture, which is 120 wide and 28 high, a unit off its upper and lower edge.
abbrev pub IsInside : Point → Type 0
IsInside p =
    (0 < p.x.1) × (0 < p.y.1) × (p.x.0 ≤ 120 * p.x.1) × (p.y.1 ≤ p.y.0) × (p.y.0 ≤ 27 * p.y.1)

spark_points :
    (max last i : ℕ) (vs : List ℕ)
    → 0 < max
    → i + length vs ≤ suc last
    → 0 < last
    → All (λ v. v ≤ max) vs
    → All IsInside (map_from (spark_point max last) i vs)
unfolding spark_point
spark_points max last i [] p q r h = tt
spark_points max last i (v ∷ vs) p q r h = (
  (r, p, omega arith, omega (arith, h.0), omega arith),
  spark_points max last (suc i) vs p (omega arith) r h.1,
)

-- Every point of a host's sparkline lies inside its picture, and there is one for each value.
pub spark_path-IsInside :
    (values : List ℕ)
    → All IsInside (spark_path values) × (length (spark_path values) ≡ length values)
unfolding spark_path
spark_path-IsInside values =
    let data' = reverse values in
    let last = max_of 1 ((length data' - 1) ∷ []) in
    let (above, all) = max_of-above 1 data' in
    let (above', all') = max_of-above 1 ((length data' - 1) ∷ []) in
    (
      spark_points (max_of 1 data') last 0 data' above (omega (arith, all'.0)) above' all,
      length-map_from (spark_point (max_of 1 data') last) 0 data' ∙ length-reverse values,
    )
