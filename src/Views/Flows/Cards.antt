-- ===== src/Views/Flows/Cards.antt =====
-- What the cards of the page of the flows show (the template of
-- web/src/views/FlowsDashboardView.vue): its branches and the texts of its rows.
use mitigador.Base.{
  ℕ, String, Bool, not, ◌&&◌, Option, none, some, List, map, eqb, leb, length, if◌then◌else◌, ◌==◌,
}
use mitigador.Api.Dashboard.{
  DashboardOverview, DashboardRecent, DashboardRecentFlow, DashboardTopEntry, DashboardProto,
  DashboardDominantProto,
}
use mitigador.Api.Traffic.{HostBucket}
use mitigador.Components.Chart.{Mode}
use mitigador.Format.{Label, Rounding}
use mitigador.Format.Rates.{format_bps_fine, format_pps_fine, format_bytes}
use mitigador.Format.Duration.{format_flow_age}
use mitigador.Views.Flows.{
  Flows, TagType, Point, proto_tag_type, proto_share, pct, global_buckets, spark_path, bar_width,
  hostgroup_label,
}

-- The figures at the top; `none` shows as a dash.
pub record KpiCards : Type 0 where
  pub bps_now : Option Label
  pub bps_avg : Option Label
  pub pps_now : Option Label
  pub pps_avg : Option Label
  pub active_hosts : Option ℕ
  pub exporters_online : Option ℕ
  pub exporters_total : Option ℕ

unfoldable pub kpi_cards : Rounding → Option DashboardOverview → KpiCards
kpi_cards r none = record {
  bps_now = none;
  bps_avg = none;
  pps_now = none;
  pps_avg = none;
  active_hosts = none;
  exporters_online = none;
  exporters_total = none;
}
kpi_cards r (some ov) = record {
  bps_now = some (format_bps_fine r ov.kpis.bps_now);
  bps_avg = some (format_bps_fine r ov.kpis.bps_avg);
  pps_now = some (format_pps_fine r ov.kpis.pps_now);
  pps_avg = some (format_pps_fine r ov.kpis.pps_avg);
  active_hosts = some ov.kpis.active_hosts;
  exporters_online = some ov.kpis.exporters_online;
  exporters_total = some ov.kpis.exporters_total;
}

-- A card with a spinner, a text that there is nothing, a warning, or its content.
pub data Card (C : Type 0) : Type 0 where
  spinner empty warning : Card C
  shows : C → Card C

unfoldable pub page_warning : Flows → Bool
page_warning p = p.overview_error && not p.loading_first

unfoldable pub chart_card : Flows → Card (List HostBucket × Mode)
chart_card p =
    if p.loading_first
    then spinner
    else if leb 1 (length (global_buckets p))
    then shows (global_buckets p, p.mode)
    else empty

-- The chip of a subscriber or else of an owner; an empty text counts as none.
pub data Chip : Type 0 where
  no_chip : Chip
  subscriber_chip owner_chip : String → Chip

unfoldable pub chip : String → String → Chip
chip subscriber owner =
    if not (subscriber == "")
    then subscriber_chip subscriber
    else if not (owner == "")
    then owner_chip owner
    else no_chip

pub record TopRow : Type 0 where
  pub tag : TagType
  pub owned_by : Chip
  pub title : String
  pub address : String
  pub host_name : String
  pub width : ℕ × ℕ
  pub spark : List Point
  pub bits : Label
  pub packets : Label

abbrev pub widen : DashboardDominantProto → DashboardProto
widen DashboardDominantProto.udp = DashboardProto.udp
widen DashboardDominantProto.icmp = DashboardProto.icmp
widen DashboardDominantProto.other = DashboardProto.other

-- `a || b`
abbrev or_else : String → String → String
or_else a b = if a == "" then b else a

unfoldable pub top_row :
    Rounding → (unnamed : String) → Option DashboardOverview → DashboardTopEntry → TopRow
unfolding chip
top_row r unnamed ov row = record {
  tag = proto_tag_type (widen row.dominant_proto);
  owned_by = chip row.subscriber row.owner;
  title = or_else row.subscriber_label row.subscriber;
  address = row.ip;
  host_name = or_else row.hostname (hostgroup_label unnamed row.hostgroup);
  width = bar_width ov row;
  spark = spark_path row.sparkline;
  bits = format_bps_fine r row.bps;
  packets = format_pps_fine r row.pps;
}

top_rows : Rounding → String → Option DashboardOverview → Card (List TopRow)
unfolding top_row
top_rows r unnamed none = empty
top_rows r unnamed (some ov) =
    if eqb (length ov.top) 0 then empty else shows (map (top_row r unnamed (some ov)) ov.top)

unfoldable pub top_card : Rounding → (unnamed : String) → Flows → Card (List TopRow)
unfolding top_rows
top_card r unnamed p = if p.loading_first then spinner else top_rows r unnamed p.overview

-- The three shares, in tenths of a percent.
unfoldable pub proto_card : Flows → Card (ℕ × ℕ × ℕ)
proto_card p =
    let (src, total) = proto_share p in
    if eqb total 0
    then empty
    else shows (pct src.udp total, pct src.icmp total, pct src.other total)

pub record RecentRow : Type 0 where
  pub age : Label
  pub src_chip : Chip
  pub src : String
  -- Shown unless it is empty.
  pub src_name : String
  pub dst_chip : Chip
  pub dst : String
  pub dst_name : String
  pub tag : TagType
  pub bytes : Label
  pub packets : ℕ
  -- 0 shows as a dash.
  pub avg_pkt_bytes : ℕ
  pub sample_rate : ℕ
  pub exporter : String

-- `now` is `Date.now()`.
unfoldable pub recent_row : Rounding → ℕ → DashboardRecentFlow → RecentRow
unfolding chip
recent_row r now f = record {
  age = format_flow_age now f.received_ms;
  src_chip = chip f.src_subscriber f.src_owner;
  src = f.src_ip;
  src_name = f.src_hostname;
  dst_chip = chip f.dst_subscriber f.dst_owner;
  dst = f.dst_ip;
  dst_name = or_else f.dst_hostname f.dst_hostgroup;
  tag = proto_tag_type f.proto;
  bytes = format_bytes r f.bytes;
  packets = f.packets;
  avg_pkt_bytes = f.avg_pkt_bytes;
  sample_rate = f.sample_rate;
  exporter = f.exporter;
}

recent_rows : Rounding → ℕ → Option DashboardRecent → Card (List RecentRow)
unfolding recent_row
recent_rows r now none = empty
recent_rows r now (some recent) =
    if eqb (length recent.flows) 0 then empty else shows (map (recent_row r now) recent.flows)

unfoldable pub recent_card : Rounding → ℕ → Flows → Card (List RecentRow)
unfolding recent_rows
recent_card r now p = if p.recent_error then warning else recent_rows r now p.recent
