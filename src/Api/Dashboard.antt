-- ===== src/Api/Dashboard.antt =====
-- The requests of web/src/api/dashboard.ts.
use Prim.Native.String
use mitigador.Base.{ℕ, String, Option, List}
use mitigador.Api.Http.{Reply}
use mitigador.Api.Client.{CsrfBody, plain, api}
use mitigador.Api.Client.Effects.{Exec}

pub data DashboardProto : Type 0 where
  udp tcp icmp other : DashboardProto

pub data DashboardDominantProto : Type 0 where
  udp icmp other : DashboardDominantProto

pub record DashboardBucket : Type 0 where
  pub pps : ℕ
  pub bps : ℕ
  pub pps_udp : ℕ
  pub bps_udp : ℕ
  pub pps_icmp : ℕ
  pub bps_icmp : ℕ
  pub pps_other : ℕ
  pub bps_other : ℕ

pub record DashboardProtoBreakdown : Type 0 where
  pub udp : ℕ
  pub icmp : ℕ
  pub other : ℕ

pub record DashboardKpis : Type 0 where
  pub bps_now : ℕ
  pub pps_now : ℕ
  pub bps_avg : ℕ
  pub pps_avg : ℕ
  pub active_hosts : ℕ
  pub exporters_online : ℕ
  pub exporters_total : ℕ

pub record DashboardTopEntry : Type 0 where
  pub ip : String
  pub hostname : String
  pub owner : String
  pub country_iso : String
  pub country_name : String
  pub subscriber : String
  pub subscriber_label : String
  pub hostgroup : Option String
  pub bps : ℕ
  pub pps : ℕ
  pub dominant_proto : DashboardDominantProto
  pub sparkline : List ℕ

pub record DashboardOverview : Type 0 where
  pub generated_at : String
  pub kpis : DashboardKpis
  pub buckets : List DashboardBucket
  pub proto_bps : DashboardProtoBreakdown
  pub proto_pps : DashboardProtoBreakdown
  pub top : List DashboardTopEntry

pub record DashboardRecentFlow : Type 0 where
  pub received_ms : ℕ
  pub src_ip : String
  pub src_hostname : String
  pub src_owner : String
  pub src_subscriber : String
  pub dst_ip : String
  pub dst_hostname : String
  pub dst_owner : String
  pub dst_subscriber : String
  pub dst_hostgroup : String
  pub proto : DashboardProto
  pub bytes : ℕ
  pub packets : ℕ
  pub avg_pkt_bytes : ℕ
  pub sample_rate : ℕ
  pub exporter : String

pub record DashboardRecent : Type 0 where
  pub generated_at : String
  pub flows : List DashboardRecentFlow

pub record DashboardOwnerBucket : Type 0 where
  pub owner : String
  pub bps : ℕ
  pub pps : ℕ
  pub hosts : ℕ

pub record DashboardCountryBucket : Type 0 where
  pub iso : String
  pub name : String
  pub bps : ℕ
  pub pps : ℕ
  pub hosts : ℕ

pub record DashboardSankeyEdge : Type 0 where
  pub source : String
  pub target : String
  pub bytes : ℕ
  pub count : ℕ

pub record DashboardAnalytics : Type 0 where
  pub generated_at : String
  pub top_owners : List DashboardOwnerBucket
  pub top_countries : List DashboardCountryBucket
  pub sankey : List DashboardSankeyEdge

module _ (csrf : Reply CsrfBody) where
  unfoldable pub fetch_overview : Reply DashboardOverview → Exec (Option DashboardOverview)
  fetch_overview reply = api csrf reply "/api/dashboard/overview" plain

  -- `n` is the number as it is printed and encoded.
  unfoldable pub fetch_recent : Reply DashboardRecent → String → Exec (Option DashboardRecent)
  fetch_recent reply n = api csrf reply (String.◌++◌ "/api/dashboard/recent?n=" n) plain

  unfoldable pub fetch_analytics : Reply DashboardAnalytics → Exec (Option DashboardAnalytics)
  fetch_analytics reply = api csrf reply "/api/dashboard/analytics" plain
