-- ===== src/Views/Flows.antt =====
-- The page of the flows (web/src/views/FlowsDashboardView.vue): its state, its requests, which
-- reply in any order, its two pollers, and what it shows where.
pub mod Shares
pub mod Charts
pub mod Cards
pub mod Polls
use mitigador.Base.{
  ℕ, zero, suc, ◌+◌, ◌-◌, ◌*◌, ◌/◌, String, Bool, true, false, not, ◌&&◌, Option, none, some, List,
  [], ◌∷◌, ◌++◌, map, reverse, length, eqb, leb, map_from, if◌then◌else◌, ◌==◌,
}
use mitigador.Api.Http.{Result, ok, thrown}
use mitigador.Api.Dashboard.{
  DashboardOverview, DashboardRecent, DashboardRecentFlow, DashboardBucket, DashboardProtoBreakdown,
  DashboardTopEntry, DashboardProto, udp, icmp, tcp, other,
}
use mitigador.Api.Traffic.{HostBucket}
use mitigador.Browser.{Intervals, start, stop, no_intervals}
use mitigador.Components.Chart.{Mode, bps, pps}

-- What an interval of the page does; a request that waits for its reply is named alike.
pub data Poll : Type 0 where
  poll_overview poll_recent : Poll

pub record Flows : Type 0 where
  pub overview : Option DashboardOverview
  pub recent : Option DashboardRecent
  pub loading_first : Bool
  pub overview_error : Bool
  pub recent_error : Bool
  pub mode : Mode
  pub overview_interval : Option ℕ
  pub recent_interval : Option ℕ
  -- The browser: the running intervals, the open requests, and whether the page listens to it.
  pub intervals : Intervals Poll
  pub calls : List Poll
  pub listening : Bool

abbrev pub initial : Flows
initial = record {
  overview = none;
  recent = none;
  loading_first = true;
  overview_error = false;
  recent_error = false;
  mode = bps;
  overview_interval = none;
  recent_interval = none;
  intervals = no_intervals;
  calls = [];
  listening = false;
}

pub data TagType : Type 0 where
  error warning success info : TagType

unfoldable pub proto_tag_type : DashboardProto → TagType
proto_tag_type udp = error
proto_tag_type icmp = warning
proto_tag_type tcp = info
proto_tag_type other = success

-- `hg ?? t('flows.hostgroup.none')`; the text of the page's language is `unnamed`.
abbrev pub hostgroup_label : (unnamed : String) → Option String → String
hostgroup_label unnamed none = unnamed
hostgroup_label unnamed (some hg) = hg

-- The computed `protoShare`, with its `total`.
abbrev by_mode : Mode → DashboardOverview → DashboardProtoBreakdown
by_mode bps ov = ov.proto_bps
by_mode pps ov = ov.proto_pps

abbrev pub share_of : Mode → Option DashboardOverview → DashboardProtoBreakdown × ℕ
share_of mode none = (record { udp = 0; icmp = 0; other = 0 }, 0)
share_of mode (some ov) = let src = by_mode mode ov in (src, src.udp + src.icmp + src.other)

unfoldable pub proto_share : Flows → DashboardProtoBreakdown × ℕ
proto_share p = share_of p.mode p.overview

-- `pct`, in tenths of a percent: `Math.round` goes to the nearest whole number, halves up.
unfoldable pub pct : ℕ → ℕ → ℕ
pct part total = if eqb total 0 then 0 else (2 * (part * 1000) + total) / (2 * total)

-- The function that `globalBuckets` maps over the buckets, `i` being the index.
abbrev pub global_bucket : DashboardBucket → ℕ → HostBucket
global_bucket b i = record {
  offset_s = i;
  pps = b.pps;
  bps = b.bps;
  pps_udp = b.pps_udp;
  bps_udp = b.bps_udp;
  pps_icmp = b.pps_icmp;
  bps_icmp = b.bps_icmp;
  pps_other = b.pps_other;
  bps_other = b.bps_other;
}

unfoldable pub buckets_of : Option DashboardOverview → List HostBucket
buckets_of none = []
buckets_of (some ov) = map_from global_bucket 0 ov.buckets

unfoldable pub global_buckets : Flows → List HostBucket
unfolding buckets_of
global_buckets p = buckets_of p.overview

-- `Math.max` of a number and of those of a list.
unfoldable pub max_of : ℕ → List ℕ → ℕ
max_of m [] = m
max_of m (x ∷ xs) = max_of (if leb m x then x else m) xs

-- A point of a sparkline's path, before it is printed: `M` or `L`, and both coordinates as a
-- fraction.
pub record Point : Type 0 where
  pub moves : Bool
  pub x : ℕ × ℕ
  pub y : ℕ × ℕ

-- The height of a value is `28 - (v / max) * 26 - 1`, here over `max`.
unfoldable pub spark_point : ℕ → ℕ → ℕ → ℕ → Point
spark_point max last v i = record {
  moves = eqb i 0;
  x = (i * 120, last);
  y = (28 * max - v * 26 - max, max);
}

-- `sparkPath`; no points for no values.
unfoldable pub spark_path : List ℕ → List Point
unfolding max_of spark_point
spark_path values =
    let data' = reverse values in
    map_from (spark_point (max_of 1 data') (max_of 1 ((length data' - 1) ∷ []))) 0 data'

unfoldable pub top_bps_max : Option DashboardOverview → ℕ
unfolding max_of
top_bps_max none = 0
top_bps_max (some ov) = max_of 0 (map (λ (r : DashboardTopEntry). r.bps) ov.top)

-- The width of a row's bar, as a fraction of the whole; none with a largest rate of 0.
abbrev pub width_of : ℕ → ℕ → ℕ × ℕ
width_of max value = if eqb max 0 then (0, 1) else (value, max)

unfoldable pub bar_width : Option DashboardOverview → DashboardTopEntry → ℕ × ℕ
unfolding top_bps_max
bar_width ov row = width_of (top_bps_max ov) row.bps

-- A reply goes to the first open request of its kind.
is_poll : Poll → Poll → Bool
is_poll poll_overview poll_overview = true
is_poll poll_recent poll_recent = true
is_poll _ _ = false

unfoldable pub erase_poll : Poll → List Poll → List Poll
unfolding is_poll
erase_poll poll [] = []
erase_poll poll (c ∷ calls) = if is_poll poll c then calls else c ∷ erase_poll poll calls

-- `loadOverview` and `loadRecent` up to their `await`.
unfoldable pub load_overview : Flows → Flows
load_overview p = record p { calls = p.calls ++ poll_overview ∷ [] }

unfoldable pub load_recent : Flows → Flows
load_recent p = record p { calls = p.calls ++ poll_recent ∷ [] }

-- The rest of them.
unfoldable pub overview_done : Result (Option DashboardOverview) → Flows → Flows
overview_done (ok o) p = record p { overview = o; overview_error = false; loading_first = false }
overview_done (thrown _) p = record p { overview_error = true; loading_first = false }

unfoldable pub recent_done : Result (Option DashboardRecent) → Flows → Flows
recent_done (ok o) p = record p { recent = o; recent_error = false }
recent_done (thrown _) p = record p { recent_error = true }

start_recent : Flows → Flows
start_recent p =
    let (t, i) = start poll_recent (p.recent_interval, p.intervals) in
    record p { recent_interval = t; intervals = i }

start_overview : Flows → Flows
start_overview p =
    let (t, i) = start poll_overview (p.overview_interval, p.intervals) in
    record p { overview_interval = t; intervals = i }

unfoldable pub start_polling : Flows → Flows
unfolding start_overview start_recent
start_polling p = start_recent (start_overview p)

stop_recent : Flows → Flows
stop_recent p =
    let (t, i) = stop (p.recent_interval, p.intervals) in
    record p { recent_interval = t; intervals = i }

stop_overview : Flows → Flows
stop_overview p =
    let (t, i) = stop (p.overview_interval, p.intervals) in
    record p { overview_interval = t; intervals = i }

unfoldable pub stop_polling : Flows → Flows
unfolding stop_overview stop_recent
stop_polling p = stop_recent (stop_overview p)

-- What an interval does when it fires.
unfoldable pub tick : Poll → Flows → Flows
unfolding load_overview load_recent
tick poll_overview p = load_overview p
tick poll_recent p = load_recent p

unfoldable pub on_visibility_change : Bool → Flows → Flows
unfolding load_overview load_recent start_polling stop_polling
on_visibility_change true p = start_polling (load_recent (load_overview p))
on_visibility_change false p = stop_polling p

unfoldable pub mount : Flows → Flows
unfolding load_overview load_recent start_polling
mount p = record (start_polling (load_recent (load_overview p))) { listening = true }

unfoldable pub unmount : Flows → Flows
unfolding stop_polling
unmount p = record (stop_polling p) { listening = false }
