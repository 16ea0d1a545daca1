-- ===== src/Stores/Incidents/Lookup.antt =====
-- The store of the active attacks as a map from identifiers to attacks
-- (web/src/stores/incidents.ts, `handleEvent`).
use mathlib.Core.Option
use mitigador.Base.{
  String, Option, none, some, List, [], ◌∷◌, ◌≡◌, refl, arith, if◌then◌else◌, ◌==◌, eq_iff, is_some,
}
use mitigador.Stores.Incidents.{
  AttackEvent, ActiveAttack, of_event, refresh, finish, find_index, modify, started, change,
  handle_event,
}

-- The attack that the store holds under an identifier: the first one, as for `findIndex`.
unfoldable pub find : String → List ActiveAttack → Option ActiveAttack
find id [] = none
find id (a ∷ active) = if a.incident_id == id then some a else find id active

-- What an event makes of the attack that is stored under its identifier.
abbrev pub on_event : String → AttackEvent → Option ActiveAttack → Option ActiveAttack
on_event type ev found =
    if type == "attack.started"
    then some (Option.get_or found (of_event ev))
    else if type == "attack.update"
    then Option.map (refresh ev) found
    else if type == "attack.ended"
    then Option.map finish found
    else found

module _ (f : ActiveAttack → ActiveAttack)
    (same : (a : ActiveAttack) → (f a).incident_id ≡ a.incident_id) where
  find-change :
      (id j : String) (active : List ActiveAttack)
      → find j (change f (find_index id active) active)
        ≡ (if id == j then Option.map f (find j active) else find j active)
  unfolding find change find_index modify
  find-change id j [] = ground arith
  find-change id j (a ∷ active) = ground (
    arith,
    find-change id j active,
    same a,
    eq_iff a.incident_id id,
    eq_iff a.incident_id j,
    eq_iff id j,
  )

pub is_some-find_index :
    (id : String) (active : List ActiveAttack)
    → is_some (find_index id active) ≡ is_some (find id active)
unfolding find find_index
is_some-find_index id [] = refl
is_some-find_index id (a ∷ active) = ground (arith, is_some-find_index id active)

find-started :
    (ev : AttackEvent) (j : String) (active : List ActiveAttack)
    → find j (started ev (find_index ev.incident_id active) active) ≡ (
        if ev.incident_id == j
        then some (Option.get_or (find j active) (of_event ev))
        else find j active)
unfolding started find
find-started ev j active =
    ground (arith, is_some-find_index ev.incident_id active, eq_iff ev.incident_id j)

-- The store is a map: an event changes the attack under its own identifier and no other. A start
-- adds the attack unless one is there; an update puts in its rates, peaks and score; an end marks
-- it as ended; of an unknown identifier an update and an end change nothing, and any other type of
-- event changes nothing at all.
pub find-handle_event :
    (type : String) (ev : AttackEvent) (j : String) (active : List ActiveAttack)
    → find j (handle_event type ev active)
      ≡ (if ev.incident_id == j then on_event type ev (find j active) else find j active)
unfolding handle_event
find-handle_event type ev j active = ground (
  arith,
  find-started ev j active,
  find-change (refresh ev) (λ a. refl) ev.incident_id j active,
  find-change finish (λ a. refl) ev.incident_id j active,
)
