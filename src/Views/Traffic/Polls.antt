-- ===== src/Views/Traffic/Polls.antt =====
-- The pollers of the page of the top talkers (web/src/views/TrafficView.vue).
use mitigador.Base.{
  ℕ, Bool, true, false, Option, none, some, List, [], ◌∷◌, ◌≡◌, refl, arith, is_some, Bool-cases,
  Option-cases, ◌&&◌, inl, inr,
}
use mitigador.Api.Http.{Result, ok, thrown}
use mitigador.Api.Traffic.{TopTalker, TopTalkersResponse, HostTrafficResponse}
use mitigador.Browser.{set_interval, start, stop, runs}
use mitigador.Browser.Polling.{stop-none, Owns, Owns-flip, start-Owns, stop-Owns, no_intervals-Owns}
use mitigador.Views.Traffic.{
  Traffic, poll_top, poll_host, start_top_polling, stop_top_polling, start_host_polling,
  stop_host_polling, refresh_host, load_top20, load_host, on_visibility_change, resume_host,
  open_drawer, close_drawer, retry_top, update_mobile, tick, top20_done, host_done, mount, mounted,
  unmount, initial, drawer_host,
}
use mitigador.Views.Traffic.Events.{
  Event, visibility, fires, open_row, closing, hiding, toggle, hide_drawer, set_mode, retrying_top,
  retrying_host, resize, top_replies, host_replies, step, run, top_reply, host_reply,
}

-- The page's running intervals are the ones in its two fields, and the host is polled only, and the
-- drawer open only, while the drawer has an address.
pub record IsTidy (p : Traffic) : Type 0 where
  pub owns : Owns p.intervals p.top_interval p.host_interval
  pub polled : is_some p.host_interval ≡ true → is_some p.drawer_ip ≡ true
  pub named : p.drawer_open ≡ true → is_some p.drawer_ip ≡ true

start_top_polling-IsTidy : {p : Traffic} → IsTidy p → IsTidy (start_top_polling p)
unfolding start_top_polling
start_top_polling-IsTidy {p} h = record {
  owns = start-Owns poll_top p.intervals p.top_interval p.host_interval h.owns;
  polled = h.polled;
  named = h.named;
}

stop_top_polling-IsTidy : {p : Traffic} → IsTidy p → IsTidy (stop_top_polling p)
unfolding stop_top_polling
stop_top_polling-IsTidy {p} h = record {
  owns = stop-Owns p.intervals p.top_interval p.host_interval h.owns;
  polled = h.polled;
  named = h.named;
}

stop_host_polling-IsTidy :
    (p : Traffic)
    → Owns p.intervals p.top_interval p.host_interval
    → (p.drawer_open ≡ true → is_some p.drawer_ip ≡ true)
    → IsTidy (stop_host_polling p)
unfolding stop_host_polling
stop_host_polling-IsTidy p owns named = record {
  owns = Owns-flip (stop-Owns p.intervals p.host_interval p.top_interval (Owns-flip owns));
  polled = λ e. ground (arith, stop-none p.host_interval p.intervals, e);
  named = named;
}

drawer_host-some : (p : Traffic) → is_some (drawer_host p) ≡ true → is_some p.drawer_ip ≡ true
drawer_host-some p h = elim (Option-cases p.drawer_ip) [ inl e ↦ cc | inr (ip, e) ↦ rw e refl ]

start_host_polling-IsTidy : (p : Traffic) → IsTidy p → IsTidy (start_host_polling p)
unfolding start_host_polling
start_host_polling-IsTidy p h = elim (Bool-cases (is_some (drawer_host p))) [
  | inr e ↦ rw e h
  | inl e ↦ rw e (record {
    owns =
        Owns-flip
          (start-Owns poll_host p.intervals p.host_interval p.top_interval (Owns-flip h.owns));
    polled = λ _. drawer_host-some p e;
    named = h.named;
  })
]

refresh_host-IsTidy : {p : Traffic} → IsTidy p → IsTidy (refresh_host p)
unfolding refresh_host load_host
refresh_host-IsTidy {p} h = elim (Option-cases (drawer_host p)) [
  | inl e ↦ rw e h
  | inr (ip, e) ↦ rw e (record { owns = h.owns; polled = h.polled; named = h.named })
]

resume_host-IsTidy : {p : Traffic} → IsTidy p → IsTidy (resume_host p)
unfolding resume_host
resume_host-IsTidy {p} h = elim (Bool-cases (p.drawer_open && is_some (drawer_host p))) [
  | inl e ↦ rw e (start_host_polling-IsTidy (refresh_host p) (refresh_host-IsTidy h))
  | inr e ↦ rw e h
]

on_visibility_change-IsTidy :
    (visible : Bool) {p : Traffic} → IsTidy p → IsTidy (on_visibility_change visible p)
unfolding on_visibility_change load_top20
on_visibility_change-IsTidy true {p} h =
    resume_host-IsTidy
      (start_top_polling-IsTidy (record { owns = h.owns; polled = h.polled; named = h.named }))
on_visibility_change-IsTidy false {p} h =
    let h' = stop_top_polling-IsTidy h in
    stop_host_polling-IsTidy (stop_top_polling p) h'.owns h'.named

open_drawer-IsTidy : (row : TopTalker) {p : Traffic} → IsTidy p → IsTidy (open_drawer row p)
unfolding open_drawer load_host
open_drawer-IsTidy row {p} h =
    let p' : Traffic = record p {
      drawer_open = true;
      drawer_ip = some row.ip;
      drawer_hostgroup = row.hostgroup;
      drawer_buckets = [];
      drawer_error = none;
    } in
    start_host_polling-IsTidy (load_host row.ip p')
      (record { owns = h.owns; polled = λ _. refl; named = λ _. refl })

close_drawer-IsTidy : {p : Traffic} → IsTidy p → IsTidy (close_drawer p)
unfolding close_drawer
close_drawer-IsTidy {p} h = stop_host_polling-IsTidy _ h.owns (λ e. cc)

host_done-IsTidy :
    (r : Result (Option HostTrafficResponse)) {p : Traffic} → IsTidy p → IsTidy (host_done r p)
unfolding host_done
host_done-IsTidy (ok (some resp)) h = record { owns = h.owns; polled = h.polled; named = h.named }
host_done-IsTidy (ok none) h = record { owns = h.owns; polled = h.polled; named = h.named }
host_done-IsTidy (thrown e) h = record { owns = h.owns; polled = h.polled; named = h.named }

top20_done-IsTidy :
    (now : ℕ) (r : Result (Option TopTalkersResponse)) {p : Traffic}
    → IsTidy p
    → IsTidy (top20_done now r p)
unfolding top20_done
top20_done-IsTidy now (ok (some resp)) h = record {
  owns = h.owns;
  polled = h.polled;
  named = h.named;
}
top20_done-IsTidy now (ok none) h = record { owns = h.owns; polled = h.polled; named = h.named }
top20_done-IsTidy now (thrown e) h = record { owns = h.owns; polled = h.polled; named = h.named }

-- Whatever the user, the timers and the network do, and in whatever order, the page keeps its books.
step-IsTidy : (e : Event) {p : Traffic} → IsTidy p → IsTidy (step e p)
unfolding step hide_drawer set_mode tick retry_top update_mobile load_top20 top_reply host_reply
step-IsTidy (visibility visible) h = on_visibility_change-IsTidy visible h
step-IsTidy (fires poll_top) h = record { owns = h.owns; polled = h.polled; named = h.named }
step-IsTidy (fires poll_host) h = refresh_host-IsTidy h
step-IsTidy (open_row row) h = open_drawer-IsTidy row h
step-IsTidy closing h = close_drawer-IsTidy h
step-IsTidy hiding h = record { owns = h.owns; polled = h.polled; named = λ e. cc }
step-IsTidy (toggle mode) h = record { owns = h.owns; polled = h.polled; named = h.named }
step-IsTidy retrying_top h = record { owns = h.owns; polled = h.polled; named = h.named }
step-IsTidy retrying_host h = refresh_host-IsTidy h
step-IsTidy (resize width) h = record { owns = h.owns; polled = h.polled; named = h.named }
step-IsTidy (top_replies now r) h =
    top20_done-IsTidy now r (record { owns = h.owns; polled = h.polled; named = h.named })
step-IsTidy (host_replies ip r) h =
    host_done-IsTidy r (record { owns = h.owns; polled = h.polled; named = h.named })

-- Whatever the user, the timers and the network do, and in whatever order, it stays so on a page
-- where it is so: the running intervals are the ones that the page holds, and while the host is
-- polled, or the drawer open, the drawer has an address.
pub run-IsTidy : (events : List Event) {p : Traffic} → IsTidy p → IsTidy (run events p)
unfolding run
run-IsTidy [] h = h
run-IsTidy (e ∷ events) h = run-IsTidy events (step-IsTidy e h)

unmount_stops : (t : ℕ) (p : Traffic) → IsTidy p → runs t (unmount p).intervals ≡ false
unfolding unmount stop_top_polling stop_host_polling
unmount_stops t p h =
    let h' = stop_top_polling-IsTidy h in
    let q = stop_top_polling p in
    let h'' = stop_host_polling-IsTidy q h'.owns h'.named in
    ground (
      arith,
      h''.owns.owned t,
      stop-none p.top_interval p.intervals,
      stop-none q.host_interval q.intervals,
    )

pub mounted-IsTidy : (p : Traffic) → IsTidy p → IsTidy (mounted p)
unfolding mounted
mounted-IsTidy p h = start_top_polling-IsTidy h

pub mount-IsTidy : (width : ℕ) → IsTidy (mount width initial)
unfolding mount
mount-IsTidy width = record { owns = no_intervals-Owns; polled = λ e. cc; named = λ e. cc }

-- After the first load, any session on the page ends, when the page is left, with no interval
-- running.
pub unmount-run :
    (width : ℕ) (events : List Event) (t : ℕ)
    → runs t (unmount (run events (mounted (mount width initial)))).intervals ≡ false
unmount-run width events t =
    unmount_stops t _
      (run-IsTidy events (mounted-IsTidy (mount width initial) (mount-IsTidy width)))

-- A page that is left while its first request is still open starts its poller when the reply comes,
-- after everything was stopped.
mounted-unmount :
    (width : ℕ) → (t : ℕ) × (runs t (mounted (unmount (mount width initial))).intervals ≡ true)
unfolding mounted unmount stop_top_polling stop_host_polling mount start_top_polling start stop
    set_interval runs
mounted-unmount width = (1, refl)
