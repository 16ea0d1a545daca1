-- ===== src/Stores/Incidents.antt =====
-- The store of the active attacks (web/src/stores/incidents.ts). Packet and bit rates are whole
-- numbers, as the server sends them.
pub mod Lookup
pub mod Order
pub mod Counting
use mitigador.Base.{
  ℕ, zero, suc, String, Bool, true, false, not, Option, none, some, List, [], ◌∷◌, map, keep,
  length, if◌then◌else◌, ◌==◌,
}
use mitigador.Api.Http.{Reply, Result, ok, thrown}
use mitigador.Api.Client.{CsrfBody, plain, api}
use mitigador.Api.Client.Effects.{Client, Exec, ◌>>=◌, pure, defined}

-- An event of the stream `/api/events`.
pub record AttackEvent : Type 0 where
  pub incident_id : String
  pub state : String
  pub host_ip : String
  pub vector : String
  pub hostgroup : String
  pub pps : ℕ
  pub bps : ℕ
  pub peak_pps : ℕ
  pub peak_bps : ℕ
  pub confidence : ℕ
  pub started_at : String
  pub ended_at : Option String
  pub now : String

pub record ActiveAttack : Type 0 where
  pub incident_id : String
  pub host_ip : String
  pub vector : String
  pub hostgroup : String
  pub pps : ℕ
  pub bps : ℕ
  pub peak_pps : ℕ
  pub peak_bps : ℕ
  pub confidence : ℕ
  pub started_at : String
  pub ended : Bool

pub record IncidentItem : Type 0 where
  pub id : String
  pub host_ip : String
  pub vector : String
  pub hostgroup : String
  pub peak_pps : ℕ
  pub peak_bps : ℕ
  pub score : ℕ
  pub started_at : String
  pub ended_at : Option String

pub record IncidentListResponse : Type 0 where
  pub items : List IncidentItem
  pub total : ℕ

pub data SseStatus : Type 0 where
  connecting opened reconnecting closed : SseStatus

pub record IncidentsStore : Type 0 where
  pub active : List ActiveAttack
  pub sse_status : SseStatus

abbrev pub initial : IncidentsStore
initial = record { active = []; sse_status = connecting }

-- The getter `activeCount`.
unfoldable pub active_count : List ActiveAttack → ℕ
active_count active = length (keep (λ a. not a.ended) active)

-- `!!ended_at`: no date, or an empty one, counts as none.
abbrev is_set : Option String → Bool
is_set none = false
is_set (some s) = not (s == "")

abbrev pub of_item : IncidentItem → ActiveAttack
of_item i = record {
  incident_id = i.id;
  host_ip = i.host_ip;
  vector = i.vector;
  hostgroup = i.hostgroup;
  pps = i.peak_pps;
  bps = i.peak_bps;
  peak_pps = i.peak_pps;
  peak_bps = i.peak_bps;
  confidence = i.score;
  started_at = i.started_at;
  ended = is_set i.ended_at;
}

abbrev snapshot_path : String
snapshot_path = "/api/incidents?active=true&limit=500"

fetch_snapshot : Reply CsrfBody → Reply IncidentListResponse → Exec (List ActiveAttack)
fetch_snapshot csrf reply = do
  found ← api csrf reply snapshot_path plain
  res ← defined found
  pure (map of_item res.items)

-- The assignment in the `try`; the `catch` keeps the store.
keep_or_replace : IncidentsStore → Result (List ActiveAttack) → IncidentsStore
keep_or_replace s (ok active) = record s { active = active }
keep_or_replace s (thrown _) = s

unfoldable pub load_active_snapshot :
    Reply CsrfBody → Reply IncidentListResponse → IncidentsStore → Client → IncidentsStore × Client
unfolding fetch_snapshot keep_or_replace
load_active_snapshot csrf reply s c =
    let (r, c') = fetch_snapshot csrf reply c in (keep_or_replace s r, c')

-- `findIndex`, with `none` for -1.
unfoldable pub find_index : String → List ActiveAttack → Option ℕ
find_index id [] = none
find_index id (a ∷ active) =
    if a.incident_id == id
    then some 0
    else (elim (find_index id active) [ none ↦ none | some i ↦ some (suc i) ])

-- An assignment to fields of `active[i]`.
unfoldable pub modify : (ActiveAttack → ActiveAttack) → ℕ → List ActiveAttack → List ActiveAttack
modify f i [] = []
modify f zero (a ∷ active) = f a ∷ active
modify f (suc i) (a ∷ active) = a ∷ modify f i active

abbrev pub of_event : AttackEvent → ActiveAttack
of_event ev = record {
  incident_id = ev.incident_id;
  host_ip = ev.host_ip;
  vector = ev.vector;
  hostgroup = ev.hostgroup;
  pps = ev.pps;
  bps = ev.bps;
  peak_pps = ev.peak_pps;
  peak_bps = ev.peak_bps;
  confidence = ev.confidence;
  started_at = ev.started_at;
  ended = false;
}

abbrev pub refresh : AttackEvent → ActiveAttack → ActiveAttack
refresh ev a = record a {
  pps = ev.pps;
  bps = ev.bps;
  peak_pps = ev.peak_pps;
  peak_bps = ev.peak_bps;
  confidence = ev.confidence;
}

abbrev pub finish : ActiveAttack → ActiveAttack
finish a = record a { ended = true }

unfoldable pub started : AttackEvent → Option ℕ → List ActiveAttack → List ActiveAttack
started ev none active = of_event ev ∷ active
started ev (some _) active = active

unfoldable pub change :
    (ActiveAttack → ActiveAttack) → Option ℕ → List ActiveAttack → List ActiveAttack
change f none active = active
change f (some i) active = modify f i active

-- `handleEvent`, on the field `active`.
unfoldable pub handle_event : String → AttackEvent → List ActiveAttack → List ActiveAttack
unfolding started change find_index modify
handle_event type ev active =
    let idx = find_index ev.incident_id active in
    if type == "attack.started"
    then started ev idx active
    else if type == "attack.update"
    then change (refresh ev) idx active
    else if type == "attack.ended"
    then change finish idx active
    else active
