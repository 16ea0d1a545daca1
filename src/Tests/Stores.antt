-- ===== src/Tests/Stores.antt =====
-- Runs of the stores, the router's guard and the menu.
use mitigador.Base.{◌+◌, String, true, false, none, some, List, [], ◌∷◌, ◌≡◌, refl}
use mitigador.Api.Http.{Reply, rejected, responded, blank, json}
use mitigador.Api.Client.{CsrfBody, api}
use mitigador.Api.Client.Effects.{fresh}
use mitigador.Api.Client.Errors.{Returns}
use mitigador.Stores.Auth.{User, App, Replies, login}
use mitigador.Router.{Route, redirect, before_each}
use mitigador.Router.Guard.{before_each-Returns}
use mitigador.Stores.Incidents.{
  AttackEvent, ActiveAttack, IncidentListResponse, of_event, of_item, handle_event, active_count,
  load_active_snapshot, initial, IncidentItem, IncidentsStore,
}
use mitigador.Stores.Incidents.Lookup.{find, find-handle_event}
use mitigador.Stores.Incidents.Order.{ids, IsDistinct, receive, receive-IsDistinct}
use mitigador.Stores.Incidents.Counting.{active_count-handle_event, load_active_snapshot_lem}

abbrev ann : User
ann = record { id = 1; username = "ann"; email = "ann@example.net" }

abbrev welcoming : Replies
welcoming = record {
  csrf = responded (record { status = 200; text = json (record { token = "t1" }) none });
  me = responded (record { status = 200; text = json ann none });
  login = responded (record { status = 204; text = blank });
  logout = responded (record { status = 204; text = blank });
}

abbrev start : App
start = record { auth = record { user = none; loaded = false }; client = fresh }

signed_in : (login welcoming "ann" "pw" start).1.auth.user ≡ some ann
unfolding login api
signed_in = refl

refused :
    (before_each (record welcoming { me = rejected }) Route.flows start).0 ≡ redirect Route.login
unfolding before_each api
refused = refl

before_each-Returns_example : (u : User) × Returns welcoming.me (some u)
before_each-Returns_example =
    before_each-Returns welcoming Route.flows start refl refl (unfold before_each api in refl)

abbrev attack : String → AttackEvent
attack id = record {
  incident_id = id;
  state = "started";
  host_ip = "192.0.2.10";
  vector = "udp_flood";
  hostgroup = "core";
  pps = 100000;
  bps = 800000000;
  peak_pps = 120000;
  peak_bps = 900000000;
  confidence = 85;
  started_at = "2026-05-01T10:00:00Z";
  ended_at = none;
  now = "2026-05-01T10:00:05Z";
}

abbrev two : List ActiveAttack
two = of_event (attack "b") ∷ of_event (attack "a") ∷ []

started_again : handle_event "attack.started" (attack "a") two ≡ two
unfolding handle_event
started_again = refl

one_left : active_count (handle_event "attack.ended" (attack "a") two) ≡ 1
unfolding active_count handle_event
one_left = refl

find-handle_event_example :
    find "a" (handle_event "attack.ended" (attack "a") two)
    ≡ some (record (of_event (attack "a")) { ended = true })
unfolding find
find-handle_event_example = find-handle_event "attack.ended" (attack "a") "a" two

receive-IsDistinct_example :
    IsDistinct
      (ids (receive (("attack.started", attack "a") ∷ ("attack.started", attack "a") ∷ []) []))
receive-IsDistinct_example =
    receive-IsDistinct (("attack.started", attack "a") ∷ ("attack.started", attack "a") ∷ []) [] tt

active_count-handle_event_example :
    active_count (handle_event "attack.ended" (attack "a") two) + 1 ≡ active_count two + 0
unfolding find
active_count-handle_event_example = active_count-handle_event "attack.ended" (attack "a") two

abbrev no_token : Reply CsrfBody
no_token = rejected

abbrev listed : IncidentItem
listed = record {
  id = "c";
  host_ip = "192.0.2.11";
  vector = "icmp_flood";
  hostgroup = "edge";
  peak_pps = 90000;
  peak_bps = 700000000;
  score = 40;
  started_at = "2026-05-01T09:00:00Z";
  ended_at = none;
}

abbrev one_item : Reply IncidentListResponse
one_item =
    responded
      (record { status = 200; text = json (record { items = listed ∷ []; total = 1 }) none })

abbrev stale : IncidentsStore
stale = record initial { active = two }

load_active_snapshot_lem_example :
    (load_active_snapshot no_token one_item stale fresh).0
    ≡ record stale { active = of_item listed ∷ [] }
load_active_snapshot_lem_example = load_active_snapshot_lem no_token one_item stale fresh
