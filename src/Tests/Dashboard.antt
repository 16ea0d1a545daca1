-- ===== src/Tests/Dashboard.antt =====
-- Runs of the live page.
use mitigador.Base.{ℕ, String, true, false, none, some, List, [], ◌∷◌, ◌≡◌, ◌≢◌, refl}
use mitigador.Api.Http.{rejected, responded, json}
use mitigador.Api.Client.Effects.{fresh}
use mitigador.Stores.Incidents.{AttackEvent, of_event, initial, handle_event}
use mitigador.Stores.Incidents.Lookup.{find}
use mitigador.Views.Dashboard.{Dashboard, on_sse_message, run_callback, unfade, fire}
use mitigador.Views.Dashboard.Rows.{shows, shows-unfade}
use mitigador.Views.Dashboard.Fading.{IsAnimated, Event, message, timer, run, run-IsAnimated, step}
use mitigador.Views.Dashboard.Summary.{Summary, load_summary}
use mitigador.Views.Dashboard.Shown.{IsLoaded, shown, shown-load_summary}
use mitigador.Tests.Format.{exact}

abbrev blank_page : Dashboard
blank_page = record {
  store = initial;
  exporters_online = 0;
  alerts_today = 0;
  loading_snapshot = true;
  snapshot_error = none;
  flashing_rows = [];
  fading_rows = [];
  fade_timers = [];
  disconnect_sse = false;
  duration_ticker = false;
  timers = [];
  next_handle = 1;
  connections = 0;
  tickers = 0;
}

abbrev flood : AttackEvent
flood = record {
  incident_id = "a";
  state = "ended";
  host_ip = "192.0.2.10";
  vector = "udp_flood";
  hostgroup = "core";
  pps = 100000;
  bps = 800000000;
  peak_pps = 120000;
  peak_bps = 900000000;
  confidence = 85;
  started_at = "2026-05-01T10:00:00Z";
  ended_at = none;
  now = "2026-05-01T10:00:05Z";
}

-- An attack starts, ends, and its two timers fire.
abbrev life : List Event
life =
    message "attack.started" (some flood)
    ∷ message "attack.ended" (some flood)
    ∷ timer 1
    ∷ timer 2
    ∷ []

life_ends : ((run life blank_page).store.active ≡ []) × ((run life blank_page).timers ≡ [])
unfolding run step on_sse_message handle_event fire
life_ends = (refl, refl)

blank_page-IsAnimated : IsAnimated blank_page
blank_page-IsAnimated = record { below = tt; distinct = tt; timed = λ id e. cc }

run-IsAnimated_example : IsAnimated (run life blank_page)
run-IsAnimated_example = run-IsAnimated life blank_page blank_page-IsAnimated

abbrev busy_page : Dashboard
busy_page = record blank_page { store = record initial { active = of_event flood ∷ [] } }

shows-unfade_example :
    (shows (run_callback (unfade "a") busy_page) "a" ≡ false)
    × (◌≢◌ {A = String} "a" "b"
        → find "b" (run_callback (unfade "a") busy_page).store.active
          ≡ find "b" busy_page.store.active)
shows-unfade_example = shows-unfade busy_page "a" "b" (refl, tt)

abbrev failing : Summary
failing = record {
  csrf = rejected;
  snapshot = rejected;
  exporters = responded (record { status = 200; text = json ("online" ∷ "stale" ∷ []) none });
  today = rejected;
  midnight = "2026-05-01T00:00:00.000Z";
}

abbrev at_zero : String → ℕ
at_zero s = 0

shown-load_summary_example :
    let d' = (load_summary failing blank_page fresh).0 in
    IsLoaded exact at_zero 5000 failing d' (shown exact at_zero 5000 d')
shown-load_summary_example = shown-load_summary exact at_zero 5000 failing blank_page fresh
