-- ===== src/Tests/Flows.antt =====
-- Runs of the pages of the flows and of the analytics.
use mitigador.Base.{
  ℕ, ◌+◌, ◌≤◌, String, false, none, some, List, [], ◌∷◌, length, ◌≡◌, ◌⊎◌, refl, arith,
}
use mitigador.Api.Dashboard.{
  DashboardOverview, DashboardBucket, DashboardAnalytics, DashboardSankeyEdge,
}
use mitigador.Views.Flows.{Flows, initial, pct, proto_share, spark_path}
use mitigador.Views.Flows.Shares.{pct_sum}
use mitigador.Views.Analytics.Nodes.{Sankey, IsDiagram, sankey, sankey_lem}
use mitigador.Views.Analytics.Flags.{flag_emoji}

abbrev bucket : ℕ → DashboardBucket
bucket n = record {
  pps = n;
  bps = n;
  pps_udp = n;
  bps_udp = n;
  pps_icmp = 0;
  bps_icmp = 0;
  pps_other = 0;
  bps_other = 0;
}

abbrev busy : DashboardOverview
busy = record {
  generated_at = "now";
  kpis = record {
    bps_now = 30;
    pps_now = 3;
    bps_avg = 20;
    pps_avg = 2;
    active_hosts = 1;
    exporters_online = 1;
    exporters_total = 2;
  };
  buckets = bucket 5 ∷ bucket 7 ∷ [];
  proto_bps = record { udp = 1; icmp = 1; other = 1 };
  proto_pps = record { udp = 2; icmp = 0; other = 1 };
  top = [];
}

abbrev page : Flows
page = record initial { overview = some busy; loading_first = false }

-- The three thirds show as 33.3 percent each.
thirds : pct 1 3 ≡ 333
unfolding pct
thirds = refl

brazil : flag_emoji "BR" ≡ 127463 ∷ 127479 ∷ []
unfolding flag_emoji
brazil = refl

flat : length (spark_path (0 ∷ [])) ≡ 1
unfolding spark_path
flat = refl

pct_sum_example : (999 ≤ pct 1 3 + pct 1 3 + pct 1 3) × (pct 1 3 + pct 1 3 + pct 1 3 ≤ 1001)
unfolding proto_share
pct_sum_example = pct_sum page (omega arith)

abbrev edge : String → String → DashboardSankeyEdge
edge a b = record { source = a; target = b; bytes = 10; count = 1 }

abbrev measured : DashboardAnalytics
measured = record {
  generated_at = "now";
  top_owners = [];
  top_countries = [];
  sankey = edge "a" "b" ∷ edge "a" "c" ∷ [];
}

sankey_lem_example :
    ((sankey (some measured) ≡ none)
      × (◌≡◌ {A = List DashboardSankeyEdge} (edge "a" "b" ∷ edge "a" "c" ∷ []) []))
    ⊎ ((s : Sankey) × (sankey (some measured) ≡ some s)
        × IsDiagram (edge "a" "b" ∷ edge "a" "c" ∷ []) s)
sankey_lem_example = sankey_lem measured
