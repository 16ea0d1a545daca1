-- ===== src/Records/Rows.antt =====
-- What an event makes of the rows of the attacks (internal/incident/recorder.go,
-- internal/incident/store.go).
use mathlib.Core.Option
use mitigador.Base.{
  ℕ, String, Option, none, some, List, [], ◌∷◌, ◌++◌, if◌then◌else◌, ◌==◌, is_some, ◌≡◌, refl, inl,
  inr, arith, eq_iff, eq_refl, Bool-cases,
}
use mitigador.Detect.{State, started, updated, ended, AttackEvent}
use mitigador.Records.{
  IncidentRow, Tables, Taken, find_row, update_rows, new_row, create, raise_peaks, update_incident,
  close_row, end_incident, by_state, or_same, handle, is_vector,
}

find_row-update_rows :
    (f : IncidentRow → IncidentRow) (same : (r : IncidentRow) → (f r).id ≡ r.id) (id j : String)
    (rows : List IncidentRow)
    → find_row j (update_rows f id rows)
      ≡ (if id == j then Option.map f (find_row j rows) else find_row j rows)
unfolding find_row update_rows
find_row-update_rows f same id j [] = ground arith
find_row-update_rows f same id j (r ∷ rows) = ground (
  arith,
  find_row-update_rows f same id j rows,
  same r,
  eq_iff r.id id,
  eq_iff r.id j,
  eq_iff id j,
)

find_row-append :
    (j : String) (r : IncidentRow) (rows : List IncidentRow)
    → find_row j (rows ++ (r ∷ []))
      ≡ (if is_some (find_row j rows) then find_row j rows else if r.id == j then some r else none)
unfolding find_row
find_row-append j r [] = ground arith
find_row-append j r (x ∷ rows) = ground (arith, find_row-append j r rows)

module _ (stamp : Option ℕ → ℕ) (hostgroup : String → Option ℕ) where
  -- What an event, unless the database fails, makes of the row of its incident.
  abbrev pub row_after : State → ℕ → AttackEvent → Option IncidentRow → Option IncidentRow
  row_after started created_at ev none =
      if is_vector ev.vector then some (new_row stamp hostgroup created_at ev) else none
  row_after started created_at ev (some r) = some r
  row_after updated created_at ev found = Option.map (raise_peaks ev) found
  row_after ended created_at ev found = Option.map (close_row stamp hostgroup ev) found

  find_row-by_state :
      (s : State) (created_at : ℕ) (ev : AttackEvent) (t : Tables) (j : String)
      → find_row j (or_same t (by_state stamp hostgroup s created_at ev t)).incidents ≡ (
          if ev.incident_id == j
          then row_after s created_at ev (find_row j t.incidents)
          else find_row j t.incidents)
  unfolding create update_incident end_incident
  find_row-by_state started created_at ev t j = ground (
    arith,
    find_row-append j (new_row stamp hostgroup created_at ev) t.incidents,
    find_row-append ev.incident_id (new_row stamp hostgroup created_at ev) t.incidents,
    eq_iff ev.incident_id j,
    eq_refl ev.incident_id,
  )
  find_row-by_state updated created_at ev t j = ground (
    arith,
    find_row-update_rows (raise_peaks ev) (λ r. refl) ev.incident_id j t.incidents,
    find_row-update_rows (raise_peaks ev) (λ r. refl) ev.incident_id ev.incident_id t.incidents,
    eq_iff ev.incident_id j,
    eq_refl ev.incident_id,
  )
  find_row-by_state ended created_at ev t j = ground (
    arith,
    find_row-update_rows (close_row stamp hostgroup ev) (λ r. refl) ev.incident_id j t.incidents,
    find_row-update_rows (close_row stamp hostgroup ev) (λ r. refl) ev.incident_id ev.incident_id
        t.incidents,
    eq_iff ev.incident_id j,
    eq_refl ev.incident_id,
  )

  -- What an event makes of the row of its incident, whether the database fails or not.
  abbrev pub taken_row : Taken → Option IncidentRow → Option IncidentRow
  taken_row x found = if x.fails then found else row_after x.event.state x.at x.event found

  -- The table of the attacks is a map: an event changes the row of its own incident and no other,
  -- and not even that if the database fails. A start adds the row, unless one is there or its
  -- vector is refused; an update and an end raise the peaks of a row that is there and put in the
  -- score, and an end its date.
  pub find_row-handle :
      (x : Taken) (t : Tables) (j : String)
      → find_row j (handle stamp hostgroup x t).incidents ≡ (
          if x.event.incident_id == j
          then taken_row x (find_row j t.incidents)
          else find_row j t.incidents)
  unfolding handle
  find_row-handle x t j = elim (Bool-cases x.fails) [
    | inl fails ↦ ground (arith, fails)
    | inr works ↦ rw works (find_row-by_state x.event.state x.at x.event t j)
  ]
