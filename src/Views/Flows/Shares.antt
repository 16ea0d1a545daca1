-- ===== src/Views/Flows/Shares.antt =====
-- The shares of the protocols and the bars of the hosts (web/src/views/FlowsDashboardView.vue).
use native.Mathlib.Nat.{mul-add, div-add-mod, mod-lt, lt_of_mul-lt-mul_left}
use mitigador.Base.{
  ℕ, zero, suc, ◌+◌, ◌*◌, ◌≤◌, ◌<◌, Option, none, some, List, [], ◌∷◌, map, ◌≡◌, refl, arith, All,
  leb, if◌then◌else◌,
}
use mitigador.Api.Dashboard.{DashboardOverview, DashboardTopEntry}
use mitigador.Views.Flows.{
  Flows, pct, proto_share, share_of, max_of, top_bps_max, bar_width, width_of,
}

-- A share is within half a tenth of a percent of the quotient.
pct-near :
    (part total : ℕ)
    → 0 < total
    → (2 * total * pct part total ≤ 2 * (part * 1000) + total)
      × (2 * (part * 1000) + total < 2 * total * pct part total + 2 * total)
unfolding pct
pct-near part zero h = elim h [ ]
pct-near part (suc n) h =
    let whole = div-add-mod (2 * (part * 1000) + suc n) (2 * suc n) in
    let rest = mod-lt (2 * (part * 1000) + suc n) {m = 2 * suc n} (omega arith) in
    (grind (arith, whole, rest), grind (arith, whole, rest))

sum_of_three : (d x y z : ℕ) → d * (x + y + z) ≡ d * x + d * y + d * z
sum_of_three d x y z = omega (arith, mul-add d (x + y) z, mul-add d x y)

share_total :
    (p : Flows) → let (src, total) = proto_share p in src.udp + src.icmp + src.other ≡ total
unfolding proto_share
share_total p = by_overview p.overview
  where
    by_overview :
        (o : Option DashboardOverview)
        → let (src, total) = share_of p.mode o in src.udp + src.icmp + src.other ≡ total
    by_overview none = refl
    by_overview (some ov) = refl

-- The sum of three shares of a whole.
shares_near :
    (a b c total : ℕ)
    → a + b + c ≡ total
    → 0 < total
    → (999 ≤ pct a total + pct b total + pct c total)
      × (pct a total + pct b total + pct c total ≤ 1001)
shares_near a b c total whole h =
    let (a₁, a₂) = pct-near a total h in
    let (b₁, b₂) = pct-near b total h in
    let (c₁, c₂) = pct-near c total h in
    let s = pct a total + pct b total + pct c total in
    let spread = sum_of_three (2 * total) (pct a total) (pct b total) (pct c total) in
    (
      lt_of_mul-lt-mul_left (2 * total) {m = 998} {n = s} (omega arith),
      omega (arith, lt_of_mul-lt-mul_left (2 * total) {m = s} {n = 1002} (omega arith)),
    )

-- While there is traffic, the three shares that the page shows add up to 99.9, 100.0 or 100.1
-- percent.
pub pct_sum :
    (p : Flows)
    → 0 < (proto_share p).1
    → let (src, total) = proto_share p in
      (999 ≤ pct src.udp total + pct src.icmp total + pct src.other total)
      × (pct src.udp total + pct src.icmp total + pct src.other total ≤ 1001)
pct_sum p h =
    let src = (proto_share p).0 in
    shares_near src.udp src.icmp src.other (proto_share p).1 (share_total p) h

pub max_of-above : (m : ℕ) (xs : List ℕ) → (m ≤ max_of m xs) × All (λ x. x ≤ max_of m xs) xs
unfolding max_of
max_of-above m [] = (omega arith, tt)
max_of-above m (x ∷ xs) =
    let (h, k) = max_of-above (if leb m x then x else m) xs in (ground arith, (ground arith, k))

bars-fit :
    (rows : List DashboardTopEntry) (m : ℕ)
    → All (λ x. x ≤ m) (map (λ (r : DashboardTopEntry). r.bps) rows)
    → All (λ (r : DashboardTopEntry). r.bps ≤ m) rows
bars-fit [] m h = tt
bars-fit (r ∷ rows) m h = (h.0, bars-fit rows m h.1)

-- The bar of each host in the list is at most as wide as its room.
pub bar_width-fits :
    (ov : DashboardOverview)
    → All (λ row. (bar_width (some ov) row).0 ≤ (bar_width (some ov) row).1) ov.top
unfolding bar_width top_bps_max
bar_width-fits ov =
    let m = max_of 0 (map (λ (r : DashboardTopEntry). r.bps) ov.top) in
    in_rows m ov.top (bars-fit ov.top m (max_of-above 0 _).1)
  where
    in_rows :
        (m : ℕ) (rows : List DashboardTopEntry)
        → All (λ (r : DashboardTopEntry). r.bps ≤ m) rows
        → All (λ (r : DashboardTopEntry). (width_of m r.bps).0 ≤ (width_of m r.bps).1) rows
    in_rows m [] h = tt
    in_rows m (r ∷ rows) h = (ground arith, in_rows m rows h.1)
