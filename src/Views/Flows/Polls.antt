-- ===== src/Views/Flows/Polls.antt =====
-- What happens to the page of the flows while it is mounted, and its two pollers
-- (web/src/views/FlowsDashboardView.vue).
use mitigador.Base.{ℕ, Bool, true, false, Option, List, [], ◌∷◌, ◌≡◌, arith}
use mitigador.Api.Http.{Result, ok, thrown}
use mitigador.Api.Dashboard.{DashboardOverview, DashboardRecent}
use mitigador.Browser.{runs, start, stop}
use mitigador.Browser.Polling.{Owns, start-Owns, stop-Owns, Owns-flip, no_intervals-Owns, stop-none}
use mitigador.Components.Chart.{Mode}
use mitigador.Views.Flows.{
  Flows, Poll, poll_overview, poll_recent, initial, start_polling, stop_polling, tick,
  on_visibility_change, overview_done, recent_done, mount, unmount, erase_poll, load_overview,
  load_recent,
}

-- What happens to the page between its mounting and its unmounting.
pub data Event : Type 0 where
  visibility : Bool → Event
  fires : Poll → Event
  chooses : Mode → Event
  overview_replies : Result (Option DashboardOverview) → Event
  recent_replies : Result (Option DashboardRecent) → Event

unfoldable pub step : Event → Flows → Flows
step (visibility visible) p = on_visibility_change visible p
step (fires poll) p = tick poll p
step (chooses mode) p = record p { mode = mode }
step (overview_replies r) p =
    overview_done r (record p { calls = erase_poll poll_overview p.calls })
step (recent_replies r) p = recent_done r (record p { calls = erase_poll poll_recent p.calls })

unfoldable pub run : List Event → Flows → Flows
run [] p = p
run (e ∷ events) p = run events (step e p)

abbrev IsTidy : Flows → Type 0
IsTidy p = Owns p.intervals p.overview_interval p.recent_interval

start_polling-IsTidy : (p : Flows) → IsTidy p → IsTidy (start_polling p)
unfolding start_polling
start_polling-IsTidy p h = Owns-flip (
    start-Owns poll_recent (start poll_overview (p.overview_interval, p.intervals)).1
      p.recent_interval _
      (Owns-flip (start-Owns poll_overview p.intervals p.overview_interval p.recent_interval h)))

stop_polling-IsTidy : (p : Flows) → IsTidy p → IsTidy (stop_polling p)
unfolding stop_polling
stop_polling-IsTidy p h = Owns-flip (
    stop-Owns (stop (p.overview_interval, p.intervals)).1 p.recent_interval _
      (Owns-flip (stop-Owns p.intervals p.overview_interval p.recent_interval h)))

step-IsTidy : (e : Event) (p : Flows) → IsTidy p → IsTidy (step e p)
unfolding step tick on_visibility_change overview_done recent_done load_overview load_recent
step-IsTidy (visibility true) p h = start_polling-IsTidy (load_recent (load_overview p)) h
step-IsTidy (visibility false) p h = stop_polling-IsTidy p h
step-IsTidy (fires poll_overview) p h = h
step-IsTidy (fires poll_recent) p h = h
step-IsTidy (chooses mode) p h = h
step-IsTidy (overview_replies (ok o)) p h = h
step-IsTidy (overview_replies (thrown e)) p h = h
step-IsTidy (recent_replies (ok o)) p h = h
step-IsTidy (recent_replies (thrown e)) p h = h

run-IsTidy : (events : List Event) (p : Flows) → IsTidy p → IsTidy (run events p)
unfolding run
run-IsTidy [] p h = h
run-IsTidy (e ∷ events) p h = run-IsTidy events (step e p) (step-IsTidy e p h)

mount-IsTidy : IsTidy (mount initial)
unfolding mount load_overview load_recent
mount-IsTidy =
    start_polling-IsTidy (record initial { calls = poll_overview ∷ poll_recent ∷ [] })
      no_intervals-Owns

unmount_stops : (t : ℕ) (p : Flows) → IsTidy p → runs t (unmount p).intervals ≡ false
unfolding unmount stop_polling
unmount_stops t p h =
    let h' = stop_polling-IsTidy p h in
    ground (
      arith,
      h'.owned t,
      stop-none p.overview_interval p.intervals,
      stop-none p.recent_interval (stop (p.overview_interval, p.intervals)).1,
    )

-- Any session on the page, with replies in any order, ends, when the page is left, with no interval
-- running.
unmount-run_flows :
    (events : List Event) (t : ℕ) → runs t (unmount (run events (mount initial))).intervals ≡ false
unmount-run_flows events t =
    unmount_stops t (run events (mount initial)) (run-IsTidy events (mount initial) mount-IsTidy)
