-- ===== src/Views/Exporters.antt =====
-- The page of the exporters (web/src/views/ExportersView.vue).
pub mod Lifecycle
use mitigador.Base.{
  ℕ, suc, String, Bool, true, false, not, Option, none, some, List, [], ◌∷◌, map, keep, length, leb,
  eqb, if◌then◌else◌, ◌==◌,
}
use mitigador.Api.Http.{Result, ok, thrown}
use mitigador.Browser.{Intervals, set_interval, clear_interval, no_intervals}
use mitigador.Format.{Label, translated}
use mitigador.Format.Duration.{format_last_seen}

pub record Exporter : Type 0 where
  pub source_ip : String
  pub type : String
  pub last_seen : Option String
  pub flows_per_sec : ℕ
  pub sample_rate_override : ℕ
  pub status : String

-- What the interval of the page does.
pub data Poll : Type 0 where
  poll_exporters : Poll

pub record Exporters : Type 0 where
  pub exporters : List Exporter
  pub loading : Bool
  pub error : Option String
  pub interval_id : Option ℕ
  -- The browser: the running intervals and the number of open requests.
  pub intervals : Intervals Poll
  pub calls : ℕ

abbrev pub initial : Exporters
initial = record {
  exporters = [];
  loading = true;
  error = none;
  interval_id = none;
  intervals = no_intervals;
  calls = 0;
}

abbrev never_seen : Option String → Bool
never_seen none = true
never_seen (some _) = false

-- The computed `warmingCount`.
unfoldable pub warming_count : List Exporter → ℕ
warming_count exporters = length (keep (λ (e : Exporter). never_seen e.last_seen) exporters)

unfoldable pub status_color : String → String
status_color status =
    if status == "online" then "#18a058" else if status == "stale" then "#f0a020" else "#d03050"

unfoldable pub status_label : String → Label
status_label status =
    if status == "online"
    then translated "exporters.status.online" ∷ []
    else if status == "stale"
    then translated "exporters.status.stale" ∷ []
    else translated "exporters.status.offline" ∷ []

-- `loadExporters` up to its `await`, and the rest of it.
unfoldable pub load_exporters : Exporters → Exporters
load_exporters p = record p { error = none; calls = suc p.calls }

unfoldable pub exporters_done : Result (Option (List Exporter)) → Exporters → Exporters
exporters_done (ok (some items)) p = record p { exporters = items; loading = false }
exporters_done (ok none) p = record p { error = some "error"; loading = false }
exporters_done (thrown _) p = record p { error = some "error"; loading = false }

unfoldable pub retry : Exporters → Exporters
unfolding load_exporters
retry p = load_exporters (record p { loading = true })

-- `onMounted` up to its `await`, and the rest of it.
unfoldable pub mount : Exporters → Exporters
unfolding load_exporters
mount p = load_exporters p

unfoldable pub mounted : Exporters → Exporters
mounted p = record p {
  interval_id = some p.intervals.next;
  intervals = set_interval poll_exporters p.intervals;
}

clear_id : Option ℕ → Intervals Poll → Intervals Poll
clear_id none i = i
clear_id (some t) i = if eqb t 0 then i else clear_interval t i

-- `onUnmounted`
unfoldable pub unmount : Exporters → Exporters
unfolding clear_id
unmount p = record p { intervals = clear_id p.interval_id p.intervals }

-- The warning above the table: the number of exporters that were never seen, unless it is 0.
unfoldable pub warming_alert : Exporters → Option ℕ
unfolding warming_count
warming_alert p = let n = warming_count p.exporters in if leb 1 n then some n else none

pub record Row : Type 0 where
  pub address : String
  pub type : String
  pub seen : Label
  pub flows : ℕ
  -- `none` shows as a dash.
  pub override : Option ℕ
  pub color : String
  pub label : Label

-- What the page shows; `time` is the language's `getTime()` of a date.
pub data Shown : Type 0 where
  spinner failed empty : Shown
  table : List Row → Shown

module _ (time : String → ℕ) (now : ℕ) where
  abbrev timed : Option String → Option ℕ
  timed none = none
  timed (some s) = if s == "" then none else some (time s)

  unfoldable pub row : Exporter → Row
  unfolding status_color status_label
  row e = record {
    address = e.source_ip;
    type = e.type;
    seen = format_last_seen now (timed e.last_seen);
    flows = e.flows_per_sec;
    override = if leb 1 e.sample_rate_override then some e.sample_rate_override else none;
    color = status_color e.status;
    label = status_label e.status;
  }

  shown_rows : List Exporter → Shown
  unfolding row
  shown_rows [] = empty
  shown_rows (e ∷ es) = table (map row (e ∷ es))

  unfoldable pub shown : Exporters → Shown
  unfolding shown_rows
  shown p =
      if p.loading
      then spinner
      else (elim p.error [ some _ ↦ failed | none ↦ shown_rows p.exporters ])
