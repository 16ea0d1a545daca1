-- ===== src/Stores/Incidents/Counting.antt =====
-- The number of active attacks that the pages show (web/src/stores/incidents.ts).
use mitigador.Base.{
  ℕ, ◌+◌, String, Bool, false, not, Option, none, some, List, [], ◌∷◌, map, ◌≡◌, refl, ap, arith,
  if◌then◌else◌, ◌==◌, ◌&&◌, ◌∙◌, eq-exclusive, is_some,
}
use mitigador.Api.Http.{Reply, Result, ok, thrown}
use mitigador.Api.Client.{CsrfBody, api, plain}
use mitigador.Api.Client.Errors.{answered, returned, api-answered}
use mitigador.Api.Client.Effects.{Client, ◌>>=◌, and_then, defined, pure}
use mitigador.Stores.Incidents.{
  AttackEvent, ActiveAttack, IncidentsStore, IncidentListResponse, of_event, refresh, finish,
  find_index, modify, started, change, handle_event, active_count, load_active_snapshot,
  keep_or_replace, fetch_snapshot, snapshot_path, of_item,
}
use mitigador.Stores.Incidents.Lookup.{find, is_some-find_index}

-- An attack is stored and has not ended.
abbrev pub is_live : Option ActiveAttack → Bool
is_live none = false
is_live (some a) = not a.ended

abbrev pub one_if : Bool → ℕ
one_if b = if b then 1 else 0

count-finish :
    (id : String) (active : List ActiveAttack)
    → active_count (change finish (find_index id active) active) + one_if (is_live (find id active))
      ≡ active_count active
unfolding active_count change find_index modify find
count-finish id [] = refl
count-finish id (a ∷ active) = ground (arith, count-finish id active)

count-refresh :
    (ev : AttackEvent) (id : String) (active : List ActiveAttack)
    → active_count (change (refresh ev) (find_index id active) active) ≡ active_count active
unfolding active_count change find_index modify
count-refresh ev id [] = refl
count-refresh ev id (a ∷ active) = ground (arith, count-refresh ev id active)

count-cons :
    (a : ActiveAttack) (active : List ActiveAttack)
    → active_count (a ∷ active) ≡ one_if (not a.ended) + active_count active
unfolding active_count
count-cons a active = ground arith

-- The count goes up by one exactly when an unknown attack starts, and down by one exactly when a
-- stored attack that has not ended ends; no other event changes it.
pub active_count-handle_event :
    (type : String) (ev : AttackEvent) (active : List ActiveAttack)
    → active_count (handle_event type ev active)
        + one_if ((type == "attack.ended") && is_live (find ev.incident_id active))
      ≡ active_count active
        + one_if ((type == "attack.started") && not (is_some (find ev.incident_id active)))
unfolding handle_event started
active_count-handle_event type ev active = ground (
  arith,
  is_some-find_index ev.incident_id active,
  count-finish ev.incident_id active,
  count-refresh ev ev.incident_id active,
  eq-exclusive "attack.started" "attack.ended" type refl,
  eq-exclusive "attack.update" "attack.ended" type refl,
  count-cons (of_event ev) active,
)

-- The store with the items of a snapshot, if there is one.
abbrev pub replaced : IncidentsStore → Option IncidentListResponse → IncidentsStore
replaced s none = s
replaced s (some res) = record s { active = map of_item res.items }

-- A snapshot replaces the whole list exactly if the reply is a success other than 204 with a JSON
-- value, by the items of that value in their order; any other reply, and any error, keeps the store.
pub load_active_snapshot_lem :
    (csrf : Reply CsrfBody) (reply : Reply IncidentListResponse) (s : IncidentsStore) (c : Client)
    → (load_active_snapshot csrf reply s c).0 ≡ replaced s (answered reply)
unfolding load_active_snapshot keep_or_replace fetch_snapshot
load_active_snapshot_lem csrf reply s c =
    by_result (api csrf reply snapshot_path plain c).0 (api csrf reply snapshot_path plain c).1
    ∙ ap (replaced s) (api-answered csrf reply snapshot_path c)
  where
    by_result :
        (r : Result (Option IncidentListResponse)) (c' : Client)
        → keep_or_replace s
            (and_then r (λ found. defined found >>= λ res. pure (map of_item res.items)) c').0
          ≡ replaced s (returned r)
    by_result (thrown e) c' = refl
    by_result (ok none) c' = refl
    by_result (ok (some res)) c' = refl
