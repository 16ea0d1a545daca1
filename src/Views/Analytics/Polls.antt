-- ===== src/Views/Analytics/Polls.antt =====
-- What happens to the page of the analytics while it is mounted, and its poller
-- (web/src/views/AnalyticsView.vue).
use mitigador.Base.{ℕ, ◌-◌, Bool, true, false, Option, none, List, [], ◌∷◌, ◌≡◌, arith}
use mitigador.Api.Http.{Result, ok, thrown}
use mitigador.Api.Dashboard.{DashboardAnalytics, DashboardOverview}
use mitigador.Browser.{runs}
use mitigador.Browser.Polling.{Owns, start-Owns, stop-Owns, no_intervals-Owns, stop-none}
use mitigador.Components.Chart.{Mode}
use mitigador.Views.Analytics.{
  Analytics, poll_all, initial, start_polling, stop_polling, load_all, all_done, on_vis, mount,
  unmount,
}

-- What happens to the page between its mounting and its unmounting.
pub data Event : Type 0 where
  visibility : Bool → Event
  fires : Event
  chooses : Mode → Event
  replies : Result (Option DashboardAnalytics) → Result (Option DashboardOverview) → Event

unfoldable pub step : Event → Analytics → Analytics
step (visibility visible) p = on_vis visible p
step fires p = load_all p
step (chooses mode) p = record p { mode = mode }
step (replies a o) p = all_done a o (record p { calls = p.calls - 1 })

unfoldable pub run : List Event → Analytics → Analytics
run [] p = p
run (e ∷ events) p = run events (step e p)

abbrev IsTidy : Analytics → Type 0
IsTidy p = Owns p.intervals p.interval none

start_polling-IsTidy : (p : Analytics) → IsTidy p → IsTidy (start_polling p)
unfolding start_polling
start_polling-IsTidy p h = start-Owns poll_all p.intervals p.interval none h

stop_polling-IsTidy : (p : Analytics) → IsTidy p → IsTidy (stop_polling p)
unfolding stop_polling
stop_polling-IsTidy p h = stop-Owns p.intervals p.interval none h

step-IsTidy : (e : Event) (p : Analytics) → IsTidy p → IsTidy (step e p)
unfolding step on_vis load_all all_done
step-IsTidy (visibility true) p h = start_polling-IsTidy (load_all p) h
step-IsTidy (visibility false) p h = stop_polling-IsTidy p h
step-IsTidy fires p h = h
step-IsTidy (chooses mode) p h = h
step-IsTidy (replies (ok a) (ok o)) p h = h
step-IsTidy (replies (ok a) (thrown e)) p h = h
step-IsTidy (replies (thrown e) o) p h = h

run-IsTidy : (events : List Event) (p : Analytics) → IsTidy p → IsTidy (run events p)
unfolding run
run-IsTidy [] p h = h
run-IsTidy (e ∷ events) p h = run-IsTidy events (step e p) (step-IsTidy e p h)

mount-IsTidy : IsTidy (mount initial)
unfolding mount load_all
mount-IsTidy = start_polling-IsTidy (record initial { calls = 1 }) no_intervals-Owns

unmount_stops : (t : ℕ) (p : Analytics) → IsTidy p → runs t (unmount p).intervals ≡ false
unfolding unmount stop_polling
unmount_stops t p h =
    let h' = stop_polling-IsTidy p h in ground (arith, h'.owned t, stop-none p.interval p.intervals)

-- Any session on the page, with replies in any order, ends, when the page is left, with no interval
-- running.
pub unmount-run_analytics :
    (events : List Event) (t : ℕ) → runs t (unmount (run events (mount initial))).intervals ≡ false
unmount-run_analytics events t =
    unmount_stops t (run events (mount initial)) (run-IsTidy events (mount initial) mount-IsTidy)
