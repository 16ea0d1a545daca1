-- ===== src/Views/Analytics.antt =====
-- The page of the analytics (web/src/views/AnalyticsView.vue): its state, its poller, and what its
-- charts are given. The package `echarts` draws.
pub mod Flags
pub mod Charts
pub mod Nodes
pub mod Polls
use mitigador.Base.{
  ℕ, suc, String, Bool, true, false, not, ◌&&◌, Option, none, some, List, [], ◌∷◌, ◌++◌, length,
}
use mitigador.Api.Http.{Result, ok, thrown}
use mitigador.Api.Dashboard.{DashboardAnalytics, DashboardOverview}
use mitigador.Browser.{Intervals, start, stop, no_intervals}
use mitigador.Components.Chart.{Mode, bps}

-- What the interval of the page does.
pub data Poll : Type 0 where
  poll_all : Poll

pub record Analytics : Type 0 where
  pub overview : Option DashboardOverview
  pub analytics : Option DashboardAnalytics
  pub loading_first : Bool
  pub errored : Bool
  pub mode : Mode
  pub interval : Option ℕ
  -- The browser: the running intervals, the number of open loads, and whether the page listens.
  pub intervals : Intervals Poll
  pub calls : ℕ
  pub listening : Bool

abbrev pub initial : Analytics
initial = record {
  overview = none;
  analytics = none;
  loading_first = true;
  errored = false;
  mode = bps;
  interval = none;
  intervals = no_intervals;
  calls = 0;
  listening = false;
}

-- `loadAll` up to its `await` of both requests.
unfoldable pub load_all : Analytics → Analytics
load_all p = record p { calls = suc p.calls }

-- The rest of it: `Promise.all` fails if one of them does.
unfoldable pub all_done :
    Result (Option DashboardAnalytics) → Result (Option DashboardOverview) → Analytics → Analytics
all_done (ok a) (ok o) p = record p {
  analytics = a;
  overview = o;
  errored = false;
  loading_first = false;
}
all_done (ok _) (thrown _) p = record p { errored = true; loading_first = false }
all_done (thrown _) _ p = record p { errored = true; loading_first = false }

unfoldable pub start_polling : Analytics → Analytics
start_polling p =
    let (t, i) = start poll_all (p.interval, p.intervals) in
    record p { interval = t; intervals = i }

unfoldable pub stop_polling : Analytics → Analytics
stop_polling p =
    let (t, i) = stop (p.interval, p.intervals) in record p { interval = t; intervals = i }

unfoldable pub on_vis : Bool → Analytics → Analytics
unfolding load_all start_polling stop_polling
on_vis true p = start_polling (load_all p)
on_vis false p = stop_polling p

unfoldable pub mount : Analytics → Analytics
unfolding load_all start_polling
mount p = record (start_polling (load_all p)) { listening = true }

unfoldable pub unmount : Analytics → Analytics
unfolding stop_polling
unmount p = record (stop_polling p) { listening = false }

-- A chart's card: a spinner, a text that there is nothing, or the chart with its option.
pub data Card (C : Type 0) : Type 0 where
  spinner empty : Card C
  chart : C → Card C

unfoldable pub card : {C : Type 0} → Bool → Option C → Card C
card true _ = spinner
card false none = empty
card false (some option) = chart option

-- The warning above the cards.
unfoldable pub page_warning : Analytics → Bool
page_warning p = p.errored && not p.loading_first

-- The figures of the summary; `none` shows as a dash.
pub record SummaryFigures : Type 0 where
  pub owners_count : Option ℕ
  pub countries_count : Option ℕ
  pub sankey_edges : Option ℕ
  pub active_hosts : Option ℕ
  pub total_bps : Option ℕ

abbrev figure : {A : Type 0} → (A → ℕ) → Option A → Option ℕ
figure f none = none
figure f (some a) = some (f a)

unfoldable pub summary : Analytics → SummaryFigures
summary p = record {
  owners_count = figure (λ (a : DashboardAnalytics). length a.top_owners) p.analytics;
  countries_count = figure (λ (a : DashboardAnalytics). length a.top_countries) p.analytics;
  sankey_edges = figure (λ (a : DashboardAnalytics). length a.sankey) p.analytics;
  active_hosts = figure (λ (o : DashboardOverview). o.kpis.active_hosts) p.overview;
  total_bps = figure (λ (o : DashboardOverview). o.kpis.bps_now) p.overview;
}
