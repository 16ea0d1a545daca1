-- ===== src/Views/Traffic.antt =====
-- The page of the top talkers and its drawer (web/src/views/TrafficView.vue). A request is open
-- from its call to the reply, and replies come in any order.
pub mod Events
pub mod Drawer
pub mod Shown
pub mod Polls
pub mod Hidden
use mitigador.Base.{
  ℕ, zero, suc, String, Bool, true, false, not, ◌&&◌, Option, none, some, List, [], ◌∷◌, ◌++◌, ltb,
  eqb, if◌then◌else◌, ◌==◌, is_some,
}
use mitigador.Api.Http.{Result, ok, thrown, Thrown, api_error, ApiError}
use mitigador.Api.Traffic.{TopTalker, TopTalkersResponse, HostBucket, HostTrafficResponse}
use mitigador.Browser.{Intervals, start, stop, no_intervals}

pub data DrawerError : Type 0 where
  fetch not_found : DrawerError

pub data Mode : Type 0 where
  bps pps : Mode

-- What an interval of the page does.
pub data Poll : Type 0 where
  poll_top poll_host : Poll

-- A request that waits for its reply.
pub data Call : Type 0 where
  top : Call
  host : String → Call

pub record Traffic : Type 0 where
  pub rows : List TopTalker
  pub loading_first : Bool
  pub top_error : Bool
  pub last_top_fetch : ℕ
  pub drawer_open : Bool
  pub drawer_ip : Option String
  pub drawer_hostgroup : Option String
  pub drawer_buckets : List HostBucket
  pub drawer_loading : Bool
  pub drawer_error : Option DrawerError
  pub mode : Mode
  pub is_mobile : Bool
  pub top_interval : Option ℕ
  pub host_interval : Option ℕ
  -- The browser: the running intervals, the open requests, and whether the page listens to it.
  pub intervals : Intervals Poll
  pub calls : List Call
  pub listening : Bool

abbrev pub initial : Traffic
initial = record {
  rows = [];
  loading_first = true;
  top_error = false;
  last_top_fetch = 0;
  drawer_open = false;
  drawer_ip = none;
  drawer_hostgroup = none;
  drawer_buckets = [];
  drawer_loading = false;
  drawer_error = none;
  mode = bps;
  is_mobile = false;
  top_interval = none;
  host_interval = none;
  intervals = no_intervals;
  calls = [];
  listening = false;
}

-- `loadTop20` up to its `await`.
unfoldable pub load_top20 : Traffic → Traffic
load_top20 p = record p { calls = p.calls ++ top ∷ [] }

-- The rest of `loadTop20`, by how the request ended; `now` is `Date.now()`.
unfoldable pub top20_done : ℕ → Result (Option TopTalkersResponse) → Traffic → Traffic
top20_done now (ok (some resp)) p = record p {
  rows = resp.items;
  top_error = false;
  last_top_fetch = now;
  loading_first = false;
}
top20_done now (ok none) p = record p { top_error = true; loading_first = false }
top20_done now (thrown _) p = record p { top_error = true; loading_first = false }

-- `loadHost` up to its `await`.
unfoldable pub load_host : String → Traffic → Traffic
load_host ip p = record p {
  drawer_loading = true;
  drawer_error = none;
  calls = p.calls ++ host ip ∷ [];
}

-- The status of what was thrown, if it has one.
abbrev is_404 : Thrown → Bool
is_404 (api_error e) = eqb e.status 404
is_404 _ = false

host_failed : Bool → Traffic → Traffic
host_failed missing p = record p {
  drawer_error = some (if missing then not_found else fetch);
  drawer_buckets = [];
  drawer_loading = false;
}

-- The rest of `loadHost`.
unfoldable pub host_done : Result (Option HostTrafficResponse) → Traffic → Traffic
unfolding host_failed
host_done (ok (some resp)) p = record p {
  drawer_buckets = resp.buckets;
  drawer_hostgroup = resp.hostgroup;
  drawer_loading = false;
}
host_done (ok none) p = host_failed false p
host_done (thrown e) p = host_failed (is_404 e) p

-- `drawerIP.value` as a condition: an empty text counts as none.
abbrev pub drawer_host : Traffic → Option String
drawer_host p = elim p.drawer_ip [ none ↦ none | some ip ↦ if ip == "" then none else some ip ]

unfoldable pub start_top_polling : Traffic → Traffic
start_top_polling p =
    let (t, i) = start poll_top (p.top_interval, p.intervals) in
    record p { top_interval = t; intervals = i }

unfoldable pub stop_top_polling : Traffic → Traffic
stop_top_polling p =
    let (t, i) = stop (p.top_interval, p.intervals) in record p { top_interval = t; intervals = i }

unfoldable pub start_host_polling : Traffic → Traffic
start_host_polling p =
    let (t, i) = start poll_host (p.host_interval, p.intervals) in
    if is_some (drawer_host p) then record p { host_interval = t; intervals = i } else p

unfoldable pub stop_host_polling : Traffic → Traffic
stop_host_polling p =
    let (t, i) = stop (p.host_interval, p.intervals) in
    record p { host_interval = t; intervals = i }

load_if : Option String → Traffic → Traffic
unfolding load_host
load_if none p = p
load_if (some ip) p = load_host ip p

-- `if (drawerIP.value) void loadHost(drawerIP.value)`
unfoldable pub refresh_host : Traffic → Traffic
unfolding load_if
refresh_host p = load_if (drawer_host p) p

-- What an interval does when it fires.
unfoldable pub tick : Poll → Traffic → Traffic
unfolding load_top20 refresh_host
tick poll_top p = load_top20 p
tick poll_host p = refresh_host p

resume_host : Traffic → Traffic
unfolding refresh_host start_host_polling
resume_host p =
    if p.drawer_open && is_some (drawer_host p) then start_host_polling (refresh_host p) else p

-- `onVisibilityChange`, by whether the page is visible.
unfoldable pub on_visibility_change : Bool → Traffic → Traffic
unfolding load_top20 start_top_polling stop_top_polling stop_host_polling resume_host
on_visibility_change true p = resume_host (start_top_polling (load_top20 p))
on_visibility_change false p = stop_host_polling (stop_top_polling p)

unfoldable pub open_drawer : TopTalker → Traffic → Traffic
unfolding load_host start_host_polling
open_drawer row p = start_host_polling (
    load_host row.ip (record p {
      drawer_ip = some row.ip;
      drawer_hostgroup = row.hostgroup;
      drawer_buckets = [];
      drawer_error = none;
      drawer_open = true;
    }))

unfoldable pub close_drawer : Traffic → Traffic
unfolding stop_host_polling
close_drawer p =
    stop_host_polling (record p { drawer_open = false; drawer_ip = none; drawer_buckets = [] })

unfoldable pub retry_top : Traffic → Traffic
unfolding load_top20
retry_top p = load_top20 (record p { top_error = false; loading_first = true })

unfoldable pub update_mobile : ℕ → Traffic → Traffic
update_mobile width p = record p { is_mobile = ltb width 640 }

-- `onMounted` up to its `await`, and the rest of it.
unfoldable pub mount : ℕ → Traffic → Traffic
unfolding load_top20 update_mobile
mount width p = load_top20 (record (update_mobile width p) { listening = true })

unfoldable pub mounted : Traffic → Traffic
unfolding start_top_polling
mounted p = start_top_polling p

unfoldable pub unmount : Traffic → Traffic
unfolding stop_top_polling stop_host_polling
unmount p = record (stop_host_polling (stop_top_polling p)) { listening = false }
