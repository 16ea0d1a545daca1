-- ===== src/Views/Analytics/Charts.antt =====
-- What the charts of the analytics show (`protoDonutOption`, `ownerBarOption` and
-- `countryBarOption` of web/src/views/AnalyticsView.vue): the data, without the colours and sizes
-- of the surroundings.
use native.Mathlib.Nat.{mod-lt}
use mitigador.Base.{
  ℕ, zero, suc, ◌+◌, ◌%◌, ◌<◌, String, Option, none, some, List, [], ◌∷◌, map, reverse, length,
  get_elem?, map_from, eqb, if◌then◌else◌, ◌==◌, ◌≡◌, ◌⊎◌, inl, inr, refl, arith, All, is_some,
  true,
}
use mitigador.Api.Dashboard.{
  DashboardAnalytics, DashboardOverview, DashboardOwnerBucket, DashboardCountryBucket,
  DashboardProtoBreakdown,
}
use mitigador.Components.Chart.{Mode, bps, pps}
use mitigador.Format.{Label, Rounding}
use mitigador.Format.Rates.{format_bps_fine, format_pps_fine}
use mitigador.Views.Analytics.Flags.{flag_emoji}

abbrev pub palette : List String
palette =
    "#2080f0" ∷ "#18a058" ∷ "#f0a020" ∷ "#d03050" ∷ "#8a2be2" ∷ "#0ea5e9" ∷ "#22c55e" ∷ "#fb923c"
    ∷ "#ef4444" ∷ "#a855f7" ∷ "#06b6d4" ∷ "#84cc16" ∷ []

-- `palette[i % palette.length]`
abbrev pub color : ℕ → Option String
color i = get_elem? palette (i % length palette)

-- `formatMetric`
unfoldable pub format_metric : Rounding → Mode → ℕ → Label
format_metric r bps v = format_bps_fine r v
format_metric r pps v = format_pps_fine r v

-- The slices of the ring; no ring without traffic.
abbrev breakdown : Mode → DashboardOverview → DashboardProtoBreakdown
breakdown bps ov = ov.proto_bps
breakdown pps ov = ov.proto_pps

unfoldable pub proto_donut : Mode → Option DashboardOverview → Option DashboardProtoBreakdown
proto_donut mode none = none
proto_donut mode (some ov) =
    let src = breakdown mode ov in if eqb (src.udp + src.icmp + src.other) 0 then none else some src

pub record Bar : Type 0 where
  pub value : ℕ
  pub hosts : ℕ
  pub color : Option String

-- The categories from the bottom up, and their bars.
pub record Bars (C : Type 0) : Type 0 where
  pub categories : List C
  pub bars : List Bar

abbrev pub by_mode : Mode → ℕ → ℕ → ℕ
by_mode bps b p = b
by_mode pps b p = p

abbrev owner_bar : Mode → DashboardOwnerBucket → ℕ → Bar
owner_bar mode r i = record { value = by_mode mode r.bps r.pps; hosts = r.hosts; color = color i }

bars_of : {R C : Type 0} → (R → C) → (R → ℕ → Bar) → List R → Option (Bars C)
bars_of category bar [] = none
bars_of category bar (r ∷ found) =
    let rows = reverse (r ∷ found) in
    some (record { categories = map category rows; bars = map_from bar 0 rows })

unfoldable pub owner_bars : Mode → Option DashboardAnalytics → Option (Bars String)
unfolding bars_of
owner_bars mode none = none
owner_bars mode (some a) =
    bars_of (λ (r : DashboardOwnerBucket). r.owner) (owner_bar mode) a.top_owners

-- A country on the axis: its flag and its code; in the tooltip its name, or else its code.
pub record Country : Type 0 where
  pub flag : List ℕ
  pub iso : String
  pub full : String

unfoldable pub country : DashboardCountryBucket → Country
country r = record {
  flag = flag_emoji r.iso;
  iso = r.iso;
  full = if r.name == "" then r.iso else r.name;
}

abbrev country_bar : Mode → DashboardCountryBucket → ℕ → Bar
country_bar mode r i = record { value = by_mode mode r.bps r.pps; hosts = r.hosts; color = color i }

unfoldable pub country_bars : Mode → Option DashboardAnalytics → Option (Bars Country)
unfolding bars_of country
country_bars mode none = none
country_bars mode (some a) = bars_of country (country_bar mode) a.top_countries

get_elem?-exists {ℓ} :
    {A : Type ℓ} (xs : List A) (k : ℕ) → k < length xs → is_some (get_elem? xs k) ≡ true
get_elem?-exists [] k h = elim h [ ]
get_elem?-exists (x ∷ xs) zero h = refl
get_elem?-exists (x ∷ xs) (suc k) h = get_elem?-exists xs k (omega arith)

color-exists : (i : ℕ) → is_some (color i) ≡ true
color-exists i = get_elem?-exists palette (i % 12) (mod-lt i (omega arith))

module _ {R C : Type 0} (category : R → C) (value : R → ℕ) (bar : R → ℕ → Bar) where
  -- A bar for each row, from the last to the first, with the row's value and one of the colours.
  abbrev pub IsChartOf : List R → Bars C → Type 0
  IsChartOf rows b =
      (b.categories ≡ map category (reverse rows))
      × (map (λ (x : Bar). x.value) b.bars ≡ map value (reverse rows))
      × All (λ (x : Bar). is_some x.color ≡ true) b.bars

  values-map_from :
      ((r : R) (i : ℕ) → (bar r i).value ≡ value r)
      → (i : ℕ) (rows : List R) → map (λ (x : Bar). x.value) (map_from bar i rows) ≡ map value rows
  values-map_from same i [] = refl
  values-map_from same i (r ∷ rows) = rw (same r i, values-map_from same (suc i) rows) refl

  colors-map_from :
      ((r : R) (i : ℕ) → is_some (bar r i).color ≡ true)
      → (i : ℕ) (rows : List R) → All (λ (x : Bar). is_some x.color ≡ true) (map_from bar i rows)
  colors-map_from colored i [] = tt
  colors-map_from colored i (r ∷ rows) = (colored r i, colors-map_from colored (suc i) rows)

  bars_of_lem :
      ((r : R) (i : ℕ) → (bar r i).value ≡ value r)
      → ((r : R) (i : ℕ) → is_some (bar r i).color ≡ true)
      → (rows : List R)
      → ((bars_of category bar rows ≡ none) × (rows ≡ []))
        ⊎ ((b : Bars C) × (bars_of category bar rows ≡ some b) × IsChartOf rows b)
  unfolding bars_of
  bars_of_lem same colored [] = inl (refl, refl)
  bars_of_lem same colored (r ∷ found) =
      let rows = reverse (r ∷ found) in
      inr (
        record { categories = map category rows; bars = map_from bar 0 rows },
        refl,
        (refl, values-map_from same 0 rows, colors-map_from colored 0 rows),
      )

-- The chart of the owners has a bar for each owner that the server sends, from the last to the
-- first, with the owner's bits or packets and one of the colours; without owners there is none.
pub owner_bars_lem :
    (mode : Mode) (a : DashboardAnalytics)
    → ((owner_bars mode (some a) ≡ none) × (a.top_owners ≡ []))
      ⊎ ((b : Bars String) × (owner_bars mode (some a) ≡ some b)
          × IsChartOf
              (λ (r : DashboardOwnerBucket). r.owner)
              (λ (r : DashboardOwnerBucket). by_mode mode r.bps r.pps)
              (owner_bar mode)
              a.top_owners
              b)
unfolding owner_bars
owner_bars_lem mode a = bars_of_lem _ _ _ (λ r i. refl) (λ r i. color-exists i) a.top_owners
