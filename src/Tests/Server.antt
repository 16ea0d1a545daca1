-- ===== src/Tests/Server.antt =====
-- Runs of the client against the server's sessions.
use mitigador.Base.{
  ℕ, Bool, false, ◌*◌, String, Option, none, some, List, [], ◌∷◌, ◌++◌, map, replicate, length, ◌≤◌,
  ◌≡◌, ◌≢◌, refl,
}
use mitigador.Api.Http.{post, blank, Response, thrown, api_error}
use mitigador.Api.Client.{Options, api, cached, csrf_header}
use mitigador.Api.Client.Effects.{Client}
use mitigador.Server.{
  Manager, guarded, handle_login, handle_logout, csrf_middleware, require_auth, renewed,
}
use mitigador.Server.Exchange.{call, exchange, call-Agrees}
use mitigador.Server.Events.{deliver, event_to_map, find-deliver}
use mitigador.Stores.Incidents.{of_event}
use mitigador.Stores.Incidents.Lookup.{find}
use mitigador.Aggregate.{Addr}
use mitigador.Detect
use mitigador.Detect.{State, started, updated, ended}
use mitigador.Fanout
use mitigador.Fanout.{Subscriber}
use mitigador.Fanout.Served.{IsPart, sent, got, waiting}
use mitigador.Server.Broker.{
  Payload, Turn, event, beat, write, connect, disconnect, turn, serve, messages, events, reaches,
  serve-messages,
}
use mitigador.Server.Gap.{heard, find-heard}
use mitigador.Server.Lockout.{signs_in, run, step, log_out, log_out_locks}

record Session : Type 0 where
  user : ℕ
  token : String

token_of : (s s' : Session) → ◌≡◌ {A = Option Session} (some s) (some s') → s'.token ≡ s.token
token_of s s' e = cc

-- A package that keeps the two values.
abbrev keeping : Manager Session
keeping = record {
  user_id = λ s. s.user;
  csrf_token = λ s. s.token;
  put_user_id = λ n s. record { user = n; token = s.token };
  put_csrf_token = λ t s. record { user = s.user; token = t };
  renew_token = λ s. some s;
  destroy = λ s. record { user = 0; token = "" };
  user_id-put_user_id = λ n s. refl;
  user_id-put_csrf_token = λ t s. refl;
  csrf_token-put_csrf_token = λ t s. refl;
  csrf_token-put_user_id = λ n s. refl;
  csrf_token-renew_token = token_of;
  csrf_token-destroy = λ s. refl;
  user_id-destroy = λ s. refl;
}

abbrev ann : Session
ann = record { user = 7; token = "t1" }

abbrev holding : Client
holding = record { csrf_token = some "t1"; sent = [] }

abbrev posting : Options
posting = record { method = post; body = none }

abbrev done : Session → Response Unit × Session
done s = (record { status = 204; text = blank }, s)

signed_again :
    keeping.user_id
      (run keeping
        (some "t2")
        (signs_in (some 7) posting ∷ [])
        (log_out keeping (some "t2") holding ann)).1
    ≢ 0
unfolding run step call exchange guarded require_auth csrf_middleware handle_login handle_logout
    renewed api csrf_header
signed_again = λ e. cc

log_out_locks_example :
    let (c', s') =
      run keeping
        (some "t2")
        (signs_in (some 7) posting ∷ [])
        (log_out keeping (some "t2") holding ann) in
    let (r, _, s'') = call keeping tt done (some "t2") "/api/mikrotik/routers" posting c' s' in
    (r ≡ thrown (api_error (record { status = 403; code = "csrf_invalid" }))) × (s'' ≡ s')
log_out_locks_example =
    log_out_locks keeping (some "t2") holding ann "t1" refl refl (λ e. cc)
      (signs_in (some 7) posting ∷ []) posting "/api/mikrotik/routers" done refl signed_again

call-Agrees_example :
    let (_, c', s') =
      call keeping tt done (some "t2") "/api/mikrotik/routers" posting holding ann in
    (s₁ : Session) × (s' ≡ (done s₁).1) × (s₁.user ≡ 7) × (cached c'.csrf_token ≡ some s₁.token)
call-Agrees_example =
    call-Agrees keeping tt done "t2" "/api/mikrotik/routers" posting holding ann refl refl (λ e. cc)
      (λ t e. cc)

abbrev as_text : Addr → String
as_text ip = "10.0.0.1"

abbrev as_date : Option ℕ → String
as_date none = ""
as_date (some t) = "2026-01-01T00:00:00Z"

abbrev told : State → ℕ → Detect.AttackEvent
told state n = record {
  incident_id = "01J";
  state = state;
  host_ip = record { v6 = false; value = 167772161 };
  vector = "udp_flood";
  hostgroup = "edge";
  pps = 100 * n;
  bps = 1000 * n;
  peak_pps = 100 * n;
  peak_bps = 1000 * n;
  confidence = 0;
  started_at = 7;
  ended_at = none;
  now = n;
}

first_there :
    find "01J" (of_event (event_to_map as_text as_date (told started 1)) ∷ [])
    ≡ some (of_event (event_to_map as_text as_date (told started 1)))
unfolding find
first_there = refl

find-deliver_example :
    let first = of_event (event_to_map as_text as_date (told started 1)) in
    (b : Bool) × (find "01J"
        (deliver as_text as_date (told updated 5 ∷ told ended 6 ∷ []) (first ∷ []))
      ≡ some (record first { ended = b }))
find-deliver_example =
    find-deliver as_text as_date "01J" (of_event (event_to_map as_text as_date (told started 1)))
      (told updated 5 ∷ told ended 6 ∷ [])
      (of_event (event_to_map as_text as_date (told started 1)) ∷ []) first_there

-- A client reads, and another never does, while events and a heartbeat are sent.
abbrev busy : List Turn
busy =
    event (told started 1)
    ∷ connect 2
    ∷ write 1
    ∷ beat
    ∷ event (told updated 2)
    ∷ write 1
    ∷ event (told ended 3)
    ∷ disconnect 2
    ∷ []

-- Eighteen events before the client reads, of which two find no room, and one after it.
abbrev slow : List Turn
slow = replicate 18 (event (told updated 2)) ++ write 1 ∷ event (told ended 3) ∷ []

serve-messages_example :
    (s : Subscriber Payload) × (Fanout.find 1 (serve (connect 1 ∷ slow) []) ≡ some s)
    × (length s.buffer ≤ 16)
    × IsPart (messages (got s)) (map some (events slow))
    × (length (sent (map turn slow)) ≤ 16 → messages (got s) ≡ map some (events slow))
    × (messages (got s) ≡ map some (reaches 1 0 slow))
    × (length s.buffer ≡ waiting 16 1 0 (map turn slow))
serve-messages_example = serve-messages 1 slow [] (unfold Fanout.find in refl) (
  refl,
  (
    refl,
    (
      refl,
      (
        refl,
        (
          refl,
          (
            refl,
            (
              refl,
              (
                refl,
                (
                  refl,
                  (
                    refl,
                    (
                      refl,
                      (refl, (refl, (refl, (refl, (refl, (refl, (refl, (refl, (refl, tt))))))))),
                    ),
                  ),
                ),
              ),
            ),
          ),
        ),
      ),
    ),
  ),
)

seventeen_reach : length (reaches 1 0 slow) ≡ 17
seventeen_reach = refl

abbrev second : State → Detect.AttackEvent
second state = record (told state 2) { incident_id = "02K" }

-- The snapshot has an attack that ends before the client connects.
find-heard_example :
    let active = of_event (event_to_map as_text as_date (second started)) ∷ [] in
    (s : Subscriber Payload) × (Fanout.find 1
        (serve (connect 1 ∷ busy) (serve (event (second ended) ∷ []) []))
      ≡ some s)
    × (find "02K" (deliver as_text as_date (heard (messages (got s))) active) ≡ find "02K" active)
find-heard_example =
    find-heard as_text as_date 1 "02K" busy (serve (event (second ended) ∷ []) [])
      (of_event (event_to_map as_text as_date (second started)) ∷ [])
      (unfold serve turn Fanout.run Fanout.step Fanout.find in refl)
      (refl, (refl, (refl, (refl, (refl, (refl, (refl, (refl, tt)))))))) (refl, (refl, (refl, tt)))
