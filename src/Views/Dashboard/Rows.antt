-- ===== src/Views/Dashboard/Rows.antt =====
-- The rows of the live page (web/src/views/DashboardView.vue, `activeRows`).
use mitigador.Base.{
  ◌∙◌, ap, String, Bool, true, false, not, ◌||◌, some, List, [], ◌∷◌, ◌++◌, ◌≡◌, ◌≢◌, refl, arith,
  keep, eq_iff, eq_refl, is_some,
}
use mitigador.Stores.Incidents.{AttackEvent, ActiveAttack, handle_event}
use mitigador.Stores.Incidents.Lookup.{find}
use mitigador.Stores.Incidents.Order.{ids, IsDistinct, any-ids, ids-handle_event}
use mitigador.Views.Dashboard.{
  Dashboard, has, active_rows, on_sse_message, run_callback, unfade, splice, remove, add,
}

-- A row is shown for an identifier.
abbrev pub shows : Dashboard → String → Bool
shows d id = has (ids (active_rows d)) id

has-remove : (id : String) (set : List String) → has (remove id set) id ≡ false
unfolding remove
has-remove id [] = refl
has-remove id (j ∷ set) = ground (arith, has-remove id set)

has-append : (id : String) (set : List String) → has (set ++ id ∷ []) id ≡ true
has-append id [] = ground (arith, eq_refl id)
has-append id (j ∷ set) = ground (arith, has-append id set)

has-add : (id : String) (set : List String) → has (add id set) id ≡ true
unfolding add
has-add id set = ground (arith, has-append id set)

splice-ids :
    (id : String) (active : List ActiveAttack)
    → IsDistinct (ids active)
    → has (ids (splice id active)) id ≡ false
unfolding splice
splice-ids id [] h = refl
splice-ids id (a ∷ active) h = ground (arith, splice-ids id active, eq_iff a.incident_id id)

find-splice :
    (id j : String) (active : List ActiveAttack)
    → id ≢ j
    → find j (splice id active) ≡ find j active
unfolding splice find
find-splice id j [] h = refl
find-splice id j (a ∷ active) h =
    ground (arith, find-splice id j active h, eq_iff a.incident_id id, eq_iff a.incident_id j)

keep-has :
    (p : ActiveAttack → Bool) (id : String) (active : List ActiveAttack)
    → has (ids active) id ≡ false
    → has (ids (keep p active)) id ≡ false
keep-has p id [] h = refl
keep-has p id (a ∷ active) h = ground (arith, keep-has p id active)

-- An attack whose row is fading is shown whether or not it has ended.
keep-fading :
    (fading : List String) (id : String) (active : List ActiveAttack)
    → has fading id ≡ true
    → has (ids (keep (λ a. not a.ended || has fading a.incident_id) active)) id
      ≡ has (ids active) id
keep-fading fading id [] h = refl
keep-fading fading id (a ∷ active) h =
    ground (arith, keep-fading fading id active, eq_iff a.incident_id id)

-- When a stored attack ends, its row stays on the page and begins to fade.
shows-on_sse_message :
    (d : Dashboard) (ev : AttackEvent) (a : ActiveAttack)
    → ev.incident_id ≢ ""
    → find ev.incident_id d.store.active ≡ some a
    → (shows (on_sse_message "attack.ended" (some ev) d) ev.incident_id ≡ true)
      × (has (on_sse_message "attack.ended" (some ev) d).fading_rows ev.incident_id ≡ true)
unfolding on_sse_message active_rows
shows-on_sse_message d ev a named stored =
    let id = ev.incident_id in
    let kept : has (ids (handle_event "attack.ended" ev d.store.active)) id ≡ true =
      rw ids-handle_event (any-ids id d.store.active ∙ ap is_some stored) in
    ground (
      arith,
      eq_iff id "",
      has-add id d.fading_rows,
      keep-fading (add id d.fading_rows) id (handle_event "attack.ended" ev d.store.active),
    )

-- When the timer of a fading row fires, the attack leaves the store and the page, and no other
-- attack does.
pub shows-unfade :
    (d : Dashboard) (id j : String)
    → IsDistinct (ids d.store.active)
    → (shows (run_callback (unfade id) d) id ≡ false)
      × (id ≢ j → find j (run_callback (unfade id) d).store.active ≡ find j d.store.active)
unfolding run_callback active_rows
shows-unfade d id j distinct = (
  keep-has _ id (splice id d.store.active) (splice-ids id d.store.active distinct),
  λ other. find-splice id j d.store.active other,
)
