-- ===== src/Records/LastEvent.antt =====
-- The row of an attack (internal/incident) against the contract on its events
-- (internal/detect/event.go).
use mitigador.Base.{
  ℕ, ◌^◌, ◌<◌, ◌≤◌, String, Bool, true, false, Option, none, some, List, [], ◌∷◌, map, keep, All,
  if◌then◌else◌, ◌==◌, ◌≡◌, ◌≢◌, refl, inl, inr, arith, eq_iff, sym, ap, ◌∙◌, Bool-cases,
}
use mitigador.Detect.{State, started, updated, ended, AttackEvent}
use mitigador.Detect.Machine.{Key}
use mitigador.Detect.Machine.Contract.{quiet, attack, Admits, Follows}
use mitigador.Records.{
  IncidentRow, Tables, Taken, find_row, handle, handle_all, is_vector, raise_peaks, close_row,
  new_row, int64, greatest,
}
use mitigador.Records.Rows.{row_after, find_row-handle}

-- The events of one incident, in their order.
abbrev pub events_with : String → List Taken → List AttackEvent
events_with id xs = keep (λ b. b.incident_id == id) (map (λ x. x.event) xs)

-- The database takes every event of the incident.
abbrev pub Works : String → List Taken → Type 0
Works id xs = All (λ x. (x.event.incident_id == id) ≡ true → x.fails ≡ false) xs

-- The peaks are numbers that an int64 can hold.
abbrev pub IsHeld : AttackEvent → Type 0
IsHeld a = (a.peak_pps < 2 ^ 63) × (a.peak_bps < 2 ^ 63)

int64-held : (v : ℕ) → v < 2 ^ 63 → int64 v ≡ v
unfolding int64
int64-held v h = omega arith

greatest-held : (a b : ℕ) → a ≤ b → b < 2 ^ 63 → greatest a (int64 b) ≡ b
unfolding greatest int64
greatest-held a b le h = ground arith

abbrev pub NoStart : List AttackEvent → Type 0
NoStart evs = All (λ b. b.state ≢ started) evs

abbrev pub last_of : AttackEvent → List AttackEvent → AttackEvent
last_of a [] = a
last_of a (b ∷ bs) = last_of b bs

module _ (stamp : Option ℕ → ℕ) (hostgroup : String → Option ℕ) where
  abbrev pub end_of : State → AttackEvent → Option ℕ
  end_of started a = none
  end_of updated a = none
  end_of ended a = some (stamp a.ended_at)

  -- The row says of the attack what the event says.
  abbrev pub Shows : AttackEvent → IncidentRow → Type 0
  Shows a r =
      (r.host_ip ≡ a.host_ip)
      × (r.vector ≡ a.vector)
      × (r.started_at ≡ stamp (some a.started_at))
      × (r.ended_at ≡ end_of a.state a)
      × (r.peak_pps ≡ a.peak_pps)
      × (r.peak_bps ≡ a.peak_bps)
      × (r.score ≡ a.confidence)

  -- The event is of the key.
  abbrev Of : Key → AttackEvent → Type 0
  Of k a = (a.host_ip ≡ k.host_ip) × (a.vector ≡ k.vector)

  raise-Shows :
      (k : Key) (a b : AttackEvent) (r : IncidentRow)
      → Shows a r
      → end_of a.state a ≡ none
      → Of k a
      → Follows k a b
      → IsHeld b
      → b.state ≡ updated
      → Shows b (raise_peaks b r)
  raise-Shows k a b r shows on of follows held is = (
    cc,
    cc,
    cc,
    shows.3 ∙ on ∙ sym (ap (λ s. end_of s b) is),
    ap (λ n. greatest n (int64 b.peak_pps)) shows.4
        ∙ greatest-held a.peak_pps b.peak_pps follows.4 held.0,
    ap (λ n. greatest n (int64 b.peak_bps)) shows.5
        ∙ greatest-held a.peak_bps b.peak_bps follows.5 held.1,
    refl,
  )

  close-Shows :
      (k : Key) (a b : AttackEvent) (r : IncidentRow)
      → Shows a r
      → Of k a
      → Follows k a b
      → IsHeld b
      → b.state ≡ ended
      → Shows b (close_row stamp hostgroup b r)
  close-Shows k a b r shows of follows held is = (
    cc,
    cc,
    cc,
    sym (ap (λ s. end_of s b) is),
    ap (λ n. greatest n (int64 b.peak_pps)) shows.4
        ∙ greatest-held a.peak_pps b.peak_pps follows.4 held.0,
    ap (λ n. greatest n (int64 b.peak_bps)) shows.5
        ∙ greatest-held a.peak_bps b.peak_bps follows.5 held.1,
    refl,
  )

  -- Events of other incidents leave the row.
  handle-other :
      (id : String) (x : Taken) (t : Tables)
      → (x.event.incident_id == id) ≡ false
      → find_row id (handle stamp hostgroup x t).incidents ≡ find_row id t.incidents
  handle-other id x t other = find_row-handle stamp hostgroup x t id ∙ rw other refl

  handle-own :
      (id : String) (x : Taken) (t : Tables) (found : Option IncidentRow)
      → (x.event.incident_id == id) ≡ true
      → x.fails ≡ false
      → find_row id t.incidents ≡ found
      → find_row id (handle stamp hostgroup x t).incidents
        ≡ row_after stamp hostgroup x.event.state x.at x.event found
  handle-own id x t found same works h =
      find_row-handle stamp hostgroup x t id ∙ rw (same, works, h) refl

  -- After the end of an attack no event of it is allowed.
  ended-Shows :
      (k : Key) (id : String) (u : ℕ) (a : AttackEvent) (xs : List Taken) (t : Tables)
      (r : IncidentRow)
      → find_row id t.incidents ≡ some r
      → Shows a r
      → Admits k (quiet u) (events_with id xs)
      → NoStart (events_with id xs)
      → (r' : IncidentRow) × (find_row id (handle_all stamp hostgroup xs t).incidents ≡ some r')
        × Shows (last_of a (events_with id xs)) r'
  unfolding handle_all
  ended-Shows k id u a [] t r h shows adm none_starts = (r, h, shows)
  ended-Shows k id u a (x ∷ xs) t r h shows adm none_starts =
      elim (Bool-cases (x.event.incident_id == id)) [
        | inl same ↦ absurd ((rw same at none_starts).0 (rw same at adm).0)
        | inr other ↦ rw other (
            ended-Shows k id u a xs (handle stamp hostgroup x t) r (handle-other id x t other ∙ h)
              shows (rw other at adm) (rw other at none_starts))
      ]

  attacked-Shows :
      (k : Key) (id : String) (told : Bool) (a : AttackEvent) (xs : List Taken) (t : Tables)
      (r : IncidentRow)
      → find_row id t.incidents ≡ some r
      → Shows a r
      → end_of a.state a ≡ none
      → Of k a
      → Works id xs
      → Admits k (attack a told) (events_with id xs)
      → NoStart (events_with id xs)
      → All IsHeld (events_with id xs)
      → (r' : IncidentRow) × (find_row id (handle_all stamp hostgroup xs t).incidents ≡ some r')
        × Shows (last_of a (events_with id xs)) r'
  unfolding handle_all
  attacked-Shows k id told a [] t r h shows on of works adm none_starts held = (r, h, shows)
  attacked-Shows k id told a (x ∷ xs) t r h shows on of (work, works) adm none_starts held =
      elim (Bool-cases (x.event.incident_id == id)) [
        | inl same ↦
            let (follows, which) = rw same at adm in
            let (_, later_starts) = rw same at none_starts in
            let (own_held, later_held) = rw same at held in
            let found = handle-own id x t (some r) same (work same) h in
            rw same (elim which [
              | inl (is, _, rest) ↦
                  attacked-Shows k id true x.event xs (handle stamp hostgroup x t)
                    (raise_peaks x.event r)
                    (found ∙ ap (λ s. row_after stamp hostgroup s x.at x.event (some r)) is)
                    (raise-Shows k a x.event r shows on of follows own_held is)
                    (ap (λ s. end_of s x.event) is) (follows.1, follows.2) works rest later_starts
                    later_held
              | inr (is, _, rest) ↦
                  ended-Shows k id _ x.event xs (handle stamp hostgroup x t)
                    (close_row stamp hostgroup x.event r)
                    (found ∙ ap (λ s. row_after stamp hostgroup s x.at x.event (some r)) is)
                    (close-Shows k a x.event r shows of follows own_held is) rest later_starts
            ])
        | inr other ↦ rw other (
            attacked-Shows k id told a xs (handle stamp hostgroup x t) r
              (handle-other id x t other ∙ h) shows on of works (rw other at adm)
              (rw other at none_starts) (rw other at held))
      ]

  -- If the contract holds for the events of an attack, of which no row is there before its start,
  -- the peaks that they tell are below 2 ^ 63, and the database takes them all, then its row is
  -- there after the start, and says of the attack's host, vector, start, end, peaks and score what
  -- the last of them says, whatever other events come in between and whichever of those fail.
  pub handle_all-Shows :
      (k : Key) (u : ℕ) (id : String) (x : Taken) (xs : List Taken) (t : Tables)
      → find_row id t.incidents ≡ none
      → x.event.incident_id ≡ id
      → is_vector k.vector ≡ true
      → Works id (x ∷ xs)
      → Admits k (quiet u) (x.event ∷ events_with id xs)
      → NoStart (events_with id xs)
      → All IsHeld (x.event ∷ events_with id xs)
      → (r : IncidentRow) × (find_row id (handle_all stamp hostgroup (x ∷ xs) t).incidents ≡ some r)
        × Shows (last_of x.event (events_with id xs)) r
  unfolding handle_all
  handle_all-Shows k u id x xs t absent own valid (work, works) (is, ip, vec, at, _, rest)
        none_starts (own_held, held) =
      attacked-Shows k id false x.event xs (handle stamp hostgroup x t)
        (new_row stamp hostgroup x.at x.event)
        (handle-own id x t none ((eq_iff x.event.incident_id id).1 own)
            (work ((eq_iff x.event.incident_id id).1 own)) absent
          ∙ ap (λ s. row_after stamp hostgroup s x.at x.event none) is
          ∙ ap (λ b. if b then some (new_row stamp hostgroup x.at x.event) else none)
              (ap is_vector vec ∙ valid))
        (
          refl,
          refl,
          refl,
          sym (ap (λ s. end_of s x.event) is),
          int64-held x.event.peak_pps own_held.0,
          int64-held x.event.peak_bps own_held.1,
          refl,
        )
        (ap (λ s. end_of s x.event) is) (ip, vec) works rest none_starts held
