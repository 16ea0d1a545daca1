-- ===== src/Views/Dashboard/Lifecycle.antt =====
-- Mounting and unmounting the live page (web/src/views/DashboardView.vue).
use mitigador.Base.{ℕ, suc, ◌+◌, ◌-◌, String, true, false, List, [], ◌∷◌, ◌≡◌, arith, if◌then◌else◌}
use mitigador.Stores.Incidents.{connecting}
use mitigador.Views.Dashboard.{Dashboard, Timer, clear_timeout}

-- `onMounted` up to its `await`.
unfoldable pub mount : Dashboard → Dashboard
mount d = record d { store = record d.store { sse_status = connecting } }

-- `onMounted` from the end of `loadSummary` on: the connection and the interval.
unfoldable pub mounted : Dashboard → Dashboard
mounted d = record d {
  disconnect_sse = true;
  connections = suc d.connections;
  duration_ticker = true;
  tickers = suc d.tickers;
}

-- The loop over the values of `fadeTimers`.
unfoldable pub clear_all : List (String × ℕ) → List Timer → List Timer
unfolding clear_timeout
clear_all [] timers = timers
clear_all ((_, t) ∷ m) timers = clear_all m (clear_timeout t timers)

-- `onUnmounted`: what a field holds is closed, and the fields keep their values.
unfoldable pub unmount : Dashboard → Dashboard
unfolding clear_all
unmount d = record d {
  connections = if d.disconnect_sse then d.connections - 1 else d.connections;
  tickers = if d.duration_ticker then d.tickers - 1 else d.tickers;
  timers = clear_all d.fade_timers d.timers;
  fade_timers = [];
}

-- The page as it is before it is mounted: its fields hold no connection and no interval.
pub record IsFresh (d : Dashboard) : Type 0 where
  pub unconnected : d.disconnect_sse ≡ false
  pub unticked : d.duration_ticker ≡ false

-- A page that is unmounted after its first load leaves no connection and no interval behind; one
-- that is left while the load is still under way opens its connection and starts its interval
-- afterwards, so that one more of each is there than before.
unmount_order :
    (d : Dashboard)
    → IsFresh d
    → ((unmount (mounted (mount d))).connections ≡ d.connections)
      × ((unmount (mounted (mount d))).tickers ≡ d.tickers)
      × ((mounted (unmount (mount d))).connections ≡ d.connections + 1)
      × ((mounted (unmount (mount d))).tickers ≡ d.tickers + 1)
unfolding unmount mounted mount
unmount_order d h = ground arith
