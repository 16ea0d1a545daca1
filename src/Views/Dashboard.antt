-- ===== src/Views/Dashboard.antt =====
-- The live page (web/src/views/DashboardView.vue): its state, the handlers of the stream, the
-- timers of the browser, and its mounting and unmounting.
pub mod Rows
pub mod Timers
pub mod Fading
pub mod Summary
pub mod Styles
pub mod Lifecycle
pub mod Shown
use mitigador.Base.{
  ℕ, zero, suc, ◌+◌, ◌-◌, String, Bool, true, false, not, ◌||◌, Option, none, some, List, [], ◌∷◌,
  ◌++◌, keep, any, length, leb, ltb, eqb, if◌then◌else◌, ◌==◌,
}
use mitigador.Api.Http.{Reply, Result, ok, thrown}
use mitigador.Api.Client.{CsrfBody, plain, api}
use mitigador.Api.Client.Effects.{Client, Exec, ◌>>=◌, pure, defined}
use mitigador.Api.Sse.{Handlers}
use mitigador.Stores.Incidents.{
  AttackEvent, ActiveAttack, IncidentsStore, IncidentListResponse, SseStatus, connecting, opened,
  reconnecting, handle_event, load_active_snapshot,
}

-- What a timer of the page does when it fires.
pub data Callback : Type 0 where
  unflash : String → Callback
  unfade : String → Callback

-- A pending timer of the browser, under its handle.
abbrev pub Timer : Type 0
Timer = ℕ × Callback

pub record Dashboard : Type 0 where
  pub store : IncidentsStore
  pub exporters_online : ℕ
  pub alerts_today : ℕ
  pub loading_snapshot : Bool
  pub snapshot_error : Option String
  pub flashing_rows : List String
  pub fading_rows : List String
  pub fade_timers : List (String × ℕ)
  -- `disconnectSSE` and `durationTicker`
  pub disconnect_sse : Bool
  pub duration_ticker : Bool
  -- The browser: its pending timers, the next handle, and the page's open connections and running
  -- intervals.
  pub timers : List Timer
  pub next_handle : ℕ
  pub connections : ℕ
  pub tickers : ℕ

-- `Set`s, in the order of insertion.
abbrev pub has : List String → String → Bool
has set id = any (λ j. j == id) set

unfoldable pub add : String → List String → List String
add id set = if has set id then set else set ++ id ∷ []

unfoldable pub remove : String → List String → List String
remove id set = keep (λ j. not (j == id)) set

-- `Map.set` of the fade timers.
unfoldable pub set_timer : String → ℕ → List (String × ℕ) → List (String × ℕ)
set_timer id t [] = (id, t) ∷ []
set_timer id t ((j, u) ∷ m) = if j == id then (id, t) ∷ m else (j, u) ∷ set_timer id t m

-- The computed `activeRows`.
unfoldable pub active_rows : Dashboard → List ActiveAttack
active_rows d = keep (λ a. not a.ended || has d.fading_rows a.incident_id) d.store.active

unfoldable pub on_sse_open : Dashboard → Dashboard
on_sse_open d = record d { store = record d.store { sse_status = opened } }

unfoldable pub on_sse_error : Dashboard → Dashboard
on_sse_error d = record d { store = record d.store { sse_status = reconnecting } }

-- `setTimeout`
abbrev set_timeout : Callback → Dashboard → Dashboard
set_timeout callback d = record d {
  timers = d.timers ++ (d.next_handle, callback) ∷ [];
  next_handle = suc d.next_handle;
}

flash : String → Dashboard → Dashboard
unfolding add
flash id d = set_timeout (unflash id) (record d { flashing_rows = add id d.flashing_rows })

fade : String → Dashboard → Dashboard
unfolding add set_timer
fade id d = set_timeout (unfade id) (record d {
  fading_rows = add id d.fading_rows;
  fade_timers = set_timer id d.next_handle d.fade_timers;
})

animate : String → String → Dashboard → Dashboard
unfolding flash fade
animate type id d =
    if type == "attack.started" then flash id d else if type == "attack.ended" then fade id d else d

-- The calls of `handleEvent` and what follows. With no event `handleEvent` reads a property of
-- `null` and throws, or finds nothing to change; the stream's handler catches the error.
unfoldable pub on_sse_message : String → Option AttackEvent → Dashboard → Dashboard
unfolding animate
on_sse_message type none d = d
on_sse_message type (some ev) d =
    let d' = record d { store = record d.store { active = handle_event type ev d.store.active } } in
    if ev.incident_id == "" then d' else animate type ev.incident_id d'

abbrev pub handlers : Handlers Dashboard AttackEvent
handlers = record { on_open = on_sse_open; on_message = on_sse_message; on_error = on_sse_error }

-- `findIndex` and `splice`: the first attack of that identifier is taken out.
unfoldable pub splice : String → List ActiveAttack → List ActiveAttack
splice id [] = []
splice id (a ∷ active) = if a.incident_id == id then active else a ∷ splice id active

unfoldable pub run_callback : Callback → Dashboard → Dashboard
unfolding remove splice
run_callback (unflash id) d = record d { flashing_rows = remove id d.flashing_rows }
run_callback (unfade id) d = record d {
  fading_rows = remove id d.fading_rows;
  store = record d.store { active = splice id d.store.active };
}

unfoldable pub find_timer : ℕ → List Timer → Option Callback
find_timer t [] = none
find_timer t ((u, callback) ∷ timers) = if eqb u t then some callback else find_timer t timers

-- `clearTimeout`
unfoldable pub clear_timeout : ℕ → List Timer → List Timer
clear_timeout t timers = keep (λ u. not (eqb u.0 t)) timers

fire_found : Option Callback → Dashboard → Dashboard
unfolding run_callback
fire_found none d = d
fire_found (some callback) d = run_callback callback d

-- The browser fires a pending timer.
unfoldable pub fire : ℕ → Dashboard → Dashboard
unfolding find_timer clear_timeout fire_found
fire t d = fire_found (find_timer t d.timers) (record d { timers = clear_timeout t d.timers })
