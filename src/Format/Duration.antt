-- ===== src/Format/Duration.antt =====
-- The formatters of times. A date is its `getTime()`, in milliseconds.
use mitigador.Base.{ℕ, ◌+◌, ◌-◌, ◌/◌, ◌%◌, Option, none, some, [], ◌∷◌, leb, ltb, if◌then◌else◌}
use mitigador.Format.{num, minus, text, translated, Label}

-- `Math.floor((end - start) / 1000)`: whole seconds, negative if the end lies before the start.
pub data Seconds : Type 0 where
  ahead : ℕ → Seconds
  behind : ℕ → Seconds

unfoldable pub seconds_between : ℕ → ℕ → Seconds
seconds_between start end_ =
    if leb start end_ then ahead ((end_ - start) / 1000) else behind ((start - end_ + 999) / 1000)

-- web/src/views/DashboardView.vue, and with the end of the incident for `now` in
-- web/src/views/IncidentListView.vue and IncidentDetailView.vue
unfoldable pub format_seconds : Seconds → Label
format_seconds (behind secs) = minus secs ∷ text "s" ∷ []
format_seconds (ahead secs) =
    if ltb secs 60
    then num secs ∷ text "s" ∷ []
    else if ltb secs 3600
    then num (secs / 60) ∷ text "m " ∷ num (secs % 60) ∷ text "s" ∷ []
    else num (secs / 3600) ∷ text "h " ∷ num (secs % 3600 / 60) ∷ text "m" ∷ []

unfoldable pub format_duration : ℕ → ℕ → Label
unfolding seconds_between format_seconds
format_duration now started_at = format_seconds (seconds_between started_at now)

-- `formatDuration(startedAt, endedAt)` of the incidents: an incident that has not ended lasts until
-- now.
unfoldable pub format_span : ℕ → ℕ → Option ℕ → Label
unfolding seconds_between format_seconds
format_span now started_at none = format_seconds (seconds_between started_at now)
format_span now started_at (some ended_at) = format_seconds (seconds_between started_at ended_at)

-- web/src/views/DashboardView.vue
unfoldable pub format_ago : Seconds → Label
format_ago (behind secs) = text "há " ∷ minus secs ∷ text "s" ∷ []
format_ago (ahead secs) =
    if ltb secs 60
    then text "há " ∷ num secs ∷ text "s" ∷ []
    else if ltb secs 3600
    then text "há " ∷ num (secs / 60) ∷ text "min" ∷ []
    else text "há " ∷ num (secs / 3600) ∷ text "h" ∷ []

unfoldable pub format_relative : ℕ → ℕ → Label
unfolding seconds_between format_ago
format_relative now started_at = format_ago (seconds_between started_at now)

-- web/src/views/ExportersView.vue: an exporter that was never seen has no time.
unfoldable pub format_last_seen : ℕ → Option ℕ → Label
unfolding seconds_between format_ago
format_last_seen now none = text "—" ∷ []
format_last_seen now (some last_seen) = format_ago (seconds_between last_seen now)

-- web/src/views/FlowsDashboardView.vue, where a time ahead of the clock counts as now
unfoldable pub format_flow_age : ℕ → ℕ → Label
unfolding seconds_between
format_flow_age now ms = elim (seconds_between ms now) [
  | behind _ ↦ translated "flows.now" ∷ []
  | ahead delta ↦
      if ltb delta 1
      then translated "flows.now" ∷ []
      else if ltb delta 60
      then num delta ∷ text "s" ∷ []
      else num (delta / 60) ∷ text "m" ∷ []
]
