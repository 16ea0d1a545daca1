-- ===== src/Stores/Incidents/Order.antt =====
-- The identifiers in the store of the active attacks, and their order
-- (web/src/stores/incidents.ts).
use mitigador.Base.{
  ℕ, zero, suc, String, false, not, Option, none, some, List, [], ◌∷◌, map, ◌≡◌, refl, ap, arith,
  if◌then◌else◌, ◌==◌, ◌&&◌, is_some, any,
}
use mitigador.Stores.Incidents.{
  AttackEvent, ActiveAttack, refresh, finish, find_index, modify, started, change, handle_event,
}
use mitigador.Stores.Incidents.Lookup.{find, is_some-find_index}

abbrev pub ids : List ActiveAttack → List String
ids active = map (λ a. a.incident_id) active

module _ (f : ActiveAttack → ActiveAttack)
    (same : (a : ActiveAttack) → (f a).incident_id ≡ a.incident_id) where
  ids-modify : (i : ℕ) (active : List ActiveAttack) → ids (modify f i active) ≡ ids active
  unfolding modify
  ids-modify i [] = refl
  ids-modify zero (a ∷ active) = ap (λ id. id ∷ ids active) (same a)
  ids-modify (suc i) (a ∷ active) = ap (a.incident_id ∷◌) (ids-modify i active)

  ids-change : (o : Option ℕ) (active : List ActiveAttack) → ids (change f o active) ≡ ids active
  unfolding change
  ids-change none active = refl
  ids-change (some i) active = ids-modify i active

-- Events never reorder or drop attacks: a start under a new identifier puts it in front, and the
-- identifiers are otherwise the same list as before.
pub ids-handle_event :
    (type : String) (ev : AttackEvent) (active : List ActiveAttack)
    → ids (handle_event type ev active) ≡ (
        if (type == "attack.started") && not (is_some (find ev.incident_id active))
        then ev.incident_id ∷ ids active
        else ids active)
unfolding handle_event started
ids-handle_event type ev active = ground (
  arith,
  is_some-find_index ev.incident_id active,
  ids-change (refresh ev) (λ a. refl) (find_index ev.incident_id active) active,
  ids-change finish (λ a. refl) (find_index ev.incident_id active) active,
)

abbrev pub IsDistinct : List String → Type 0
IsDistinct [] = Unit
IsDistinct (id ∷ l) = (any (λ j. j == id) l ≡ false) × IsDistinct l

pub any-ids :
    (id : String) (active : List ActiveAttack)
    → any (λ j. j == id) (ids active) ≡ is_some (find id active)
unfolding find
any-ids id [] = refl
any-ids id (a ∷ active) = ground (arith, any-ids id active)

handle_event-IsDistinct :
    (type : String) (ev : AttackEvent) (active : List ActiveAttack)
    → IsDistinct (ids active)
    → IsDistinct (ids (handle_event type ev active))
handle_event-IsDistinct type ev active h =
    rw ids-handle_event (ground (arith, any-ids ev.incident_id active))

-- A stream of events, with their types.
pub receive : List (String × AttackEvent) → List ActiveAttack → List ActiveAttack
receive [] active = active
receive ((type, ev) ∷ events) active = receive events (handle_event type ev active)

-- Whatever events the server sends, and however often it repeats them, no identifier stands in the
-- store twice.
pub receive-IsDistinct :
    (events : List (String × AttackEvent)) (active : List ActiveAttack)
    → IsDistinct (ids active)
    → IsDistinct (ids (receive events active))
unfolding receive
receive-IsDistinct [] active h = h
receive-IsDistinct ((type, ev) ∷ events) active h =
    receive-IsDistinct events (handle_event type ev active)
      (handle_event-IsDistinct type ev active h)
