-- ===== src/Components/Chart/Stacking.antt =====
-- The data of the chart (web/src/components/HostTrafficChart.vue, `buildData`).
use mathlib.Core.List.{reverse-cons, map-append}
use mitigador.Base.{
  ℕ, zero, suc, ◌+◌, ◌-◌, ◌≤◌, ◌<◌, some, List, [], ◌∷◌, ◌++◌, map, reverse, length, get_elem?,
  take, take-length, All-append, length-map, length-reverse, ◌≡◌, refl, arith, All, ◌∙◌,
}
use mitigador.Api.Traffic.{HostBucket}
use mitigador.Components.Chart.{Mode, Time, before, Column, column, build_from, build_data}

take-suc :
    (k : ℕ) (xs : List HostBucket)
    → k < length xs
    → (b : HostBucket) × (get_elem? xs k ≡ some b)
      × (reverse (take (suc k) xs) ≡ b ∷ reverse (take k xs))
take-suc k [] h = elim h [ ]
take-suc zero (x ∷ xs) h = (x, refl, refl)
take-suc (suc k) (x ∷ xs) h =
    let (b, found, same) = take-suc k xs (omega arith) in (b, found, simp (reverse-cons, same))

build_from-eq :
    (mode : Mode) (buckets : List HostBucket) (k i : ℕ)
    → k + i ≡ length buckets
    → build_from mode buckets k i ≡ some (map (column mode) (reverse (take k buckets)))
unfolding build_from
build_from-eq mode buckets zero i h = refl
build_from-eq mode buckets (suc k) i h =
    let (b, found, same) = take-suc k buckets (omega arith) in
    let at : length buckets - 1 - i ≡ k = omega arith in
    rw (at, found, same, build_from-eq mode buckets k (i + 1) (omega arith)) refl

-- The loop never reads out of range, and it builds the column of each bucket from the oldest to the
-- newest.
pub build_data_lem :
    (mode : Mode) (buckets : List HostBucket)
    → build_data mode buckets ≡ some (map (column mode) (reverse buckets))
unfolding build_data
build_data_lem mode buckets =
    rw (build_from-eq mode buckets (length buckets) 0 (omega arith), take-length) refl

-- Seconds before now.
abbrev pub ago : Time → ℕ
ago (before s) = s

-- The buckets go back in time, as the server sends them.
abbrev pub GoesBack : List HostBucket → Type 0
GoesBack [] = Unit
GoesBack (b ∷ buckets) = All (λ c. b.offset_s < c.offset_s) buckets × GoesBack buckets

-- The columns go forward in time, as the chart wants them.
abbrev pub GoesForward : List Column → Type 0
GoesForward [] = Unit
GoesForward (c ∷ columns) = All (λ d. ago d.x < ago c.x) columns × GoesForward columns

-- The three values of a column lie on one another.
abbrev pub IsStacked : Column → Type 0
IsStacked c = (c.udp ≤ c.udp_icmp) × (c.udp_icmp ≤ c.total)

module _ (mode : Mode) where
  columns-later :
      (n : ℕ) (buckets : List HostBucket)
      → All (λ c. n < c.offset_s) buckets
      → All (λ d. n < ago d.x) (map (column mode) buckets)
  unfolding column
  columns-later n [] h = tt
  columns-later n (b ∷ buckets) h = (h.0, columns-later n buckets h.1)

  All-reverse : (P : HostBucket → Type 0) (xs : List HostBucket) → All P xs → All P (reverse xs)
  All-reverse P [] h = tt
  All-reverse P (x ∷ xs) h =
      rw reverse-cons (All-append P (reverse xs) (x ∷ []) (All-reverse P xs h.1) (h.0, tt))

  GoesForward-append :
      (cs : List Column) (d : Column)
      → All (λ c. ago d.x < ago c.x) cs
      → GoesForward cs
      → GoesForward (cs ++ d ∷ [])
  GoesForward-append [] d h k = (tt, tt)
  GoesForward-append (c ∷ cs) d h k = (
    All-append (λ e. ago e.x < ago c.x) cs (d ∷ []) k.0 (h.0, tt),
    GoesForward-append cs d h.1 k.1,
  )

  GoesForward-reverse :
      (buckets : List HostBucket)
      → GoesBack buckets
      → GoesForward (map (column mode) (reverse buckets))
  GoesForward-reverse [] h = tt
  GoesForward-reverse (b ∷ buckets) h =
      rw (reverse-cons, map-append)
        (GoesForward-append (map (column mode) (reverse buckets)) (column mode b)
          (unfold column in columns-later b.offset_s (reverse buckets) (All-reverse _ buckets h.0))
          (GoesForward-reverse buckets h.1))

  columns-IsStacked : (buckets : List HostBucket) → All IsStacked (map (column mode) buckets)
  unfolding column
  columns-IsStacked [] = tt
  columns-IsStacked (b ∷ buckets) = ((omega arith, omega arith), columns-IsStacked buckets)

  -- The data that the chart is given are in order: times go forward, the newest at the right edge,
  -- the three areas lie on one another, and there is a column for each bucket.
  pub build_data_ordered :
      (buckets : List HostBucket)
      → GoesBack buckets
      → (columns : List Column) × (build_data mode buckets ≡ some columns)
        × GoesForward columns
        × All IsStacked columns
        × (length columns ≡ length buckets)
  build_data_ordered buckets h = (
    map (column mode) (reverse buckets),
    build_data_lem mode buckets,
    GoesForward-reverse buckets h,
    columns-IsStacked (reverse buckets),
    length-map (column mode) (reverse buckets) ∙ length-reverse buckets,
  )
