-- ===== src/Server/Events.antt =====
-- The stream of events that the server sends (internal/api/sse.go) and what the client's store makes
-- of it (web/src/stores/incidents.ts).
use mitigador.Base.{
  ℕ, String, Bool, true, Option, some, List, [], ◌∷◌, if◌then◌else◌, ◌==◌, ◌≡◌, inl, inr, refl, ◌∙◌,
  Bool-cases,
}
use Prim.Native.String.{◌++◌ as ◌++ₛ◌}
use mitigador.Aggregate.{Addr}
use mitigador.Detect
use mitigador.Detect.{State, started, updated, ended}
use mitigador.Stores.Incidents.{AttackEvent, ActiveAttack, handle_event}
use mitigador.Stores.Incidents.Lookup.{find, find-handle_event, on_event}

-- `string(ev.State)`
abbrev pub state_text : State → String
state_text started = "started"
state_text updated = "updated"
state_text ended = "ended"

-- `evType`
abbrev pub event_type : State → String
event_type s = "attack." ++ₛ state_text s

-- The texts of an address and of an instant in JSON, the zero time's too.
module _ (address : Addr → String) (date : Option ℕ → String) where
  -- `eventToMap`, as the client reads its JSON.
  abbrev pub event_to_map : Detect.AttackEvent → AttackEvent
  event_to_map ev = record {
    incident_id = ev.incident_id;
    state = state_text ev.state;
    host_ip = address ev.host_ip;
    vector = ev.vector;
    hostgroup = ev.hostgroup;
    pps = ev.pps;
    bps = ev.bps;
    peak_pps = ev.peak_pps;
    peak_bps = ev.peak_bps;
    confidence = ev.confidence;
    started_at = date (some ev.started_at);
    ended_at = some (date ev.ended_at);
    now = date (some ev.now);
  }

  -- The client's store after some events of the stream.
  unfoldable pub deliver : List Detect.AttackEvent → List ActiveAttack → List ActiveAttack
  deliver [] active = active
  deliver (ev ∷ evs) active =
      deliver evs (handle_event (event_type ev.state) (event_to_map ev) active)

  on_event-kept :
      (s : State) (ev : AttackEvent) (a : ActiveAttack)
      → (b : Bool) × (on_event (event_type s) ev (some a) ≡ some (record a { ended = b }))
  on_event-kept started ev a = (a.ended, refl)
  on_event-kept updated ev a = (a.ended, refl)
  on_event-kept ended ev a = (true, refl)

  find-handled :
      (id : String) (a : ActiveAttack) (ev : Detect.AttackEvent) (active : List ActiveAttack)
      → find id active ≡ some a
      → (b : Bool) × (find id (handle_event (event_type ev.state) (event_to_map ev) active)
          ≡ some (record a { ended = b }))
  find-handled id a ev active h = elim (Bool-cases (ev.incident_id == id)) [
    | inl same ↦
        let (b, kept) = on_event-kept ev.state (event_to_map ev) a in (b, made ∙ rw (same, h) kept)
    | inr other ↦ (a.ended, made ∙ rw (other, h) refl)
  ]
    where
      made : find id (handle_event (event_type ev.state) (event_to_map ev) active) ≡ (
          if ev.incident_id == id
          then on_event (event_type ev.state) (event_to_map ev) (find id active)
          else find id active)
      made = find-handle_event (event_type ev.state) (event_to_map ev) id active

  -- What the client shows of a stored attack never changes but for its end: no event of the server
  -- moves its rates, its peaks or its confidence.
  pub find-deliver :
      (id : String) (a : ActiveAttack) (evs : List Detect.AttackEvent) (active : List ActiveAttack)
      → find id active ≡ some a
      → (b : Bool) × (find id (deliver evs active) ≡ some (record a { ended = b }))
  unfolding deliver
  find-deliver id a [] active h = (a.ended, h)
  find-deliver id a (ev ∷ evs) active h =
      let (b, kept) = find-handled id a ev active h in
      find-deliver id (record a { ended = b }) evs
        (handle_event (event_type ev.state) (event_to_map ev) active) kept
