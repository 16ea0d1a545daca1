-- ===== src/Detect/Machine.antt =====
-- The state machine of one host and vector (internal/detect/state.go). A dereference of a nil
-- incident, which panics, is `none`.
pub mod Contract
pub mod Grace
use mitigador.Base.{
  ℕ, ◌+◌, ◌-◌, ◌*◌, ◌%◌, ◌^◌, String, Bool, true, false, not, ◌&&◌, ◌||◌, Option, none, some, List,
  [], ◌∷◌, if◌then◌else◌, eqb, leb, ltb,
}
use mitigador.Aggregate.{Addr}
use mitigador.Detect.{State, started, updated, ended, AttackEvent, Threshold}

abbrev pub second : ℕ
second = 1000000000

abbrev pub cooldown_after_end : ℕ
cooldown_after_end = 60 * second

abbrev pub update_after_duration : ℕ
update_after_duration = 5 * 60 * second

pub record Key : Type 0 where
  pub host_ip : Addr
  pub vector : String

pub record Input : Type 0 where
  pub now : ℕ
  pub current_pps : ℕ
  pub current_bps : ℕ
  pub avg_pps_last_window : ℕ
  pub avg_bps_last_window : ℕ
  pub violating : Bool
  pub duration_violated : ℕ
  pub hostgroup : String
  pub confidence : ℕ

pub data MachineState : Type 0 where
  idle active cooldown : MachineState

pub record Incident : Type 0 where
  pub id : String
  pub started_at : ℕ
  pub initial_peak_pps : ℕ
  pub initial_peak_bps : ℕ
  pub peak_pps : ℕ
  pub peak_bps : ℕ
  pub update_emitted : Bool
  pub no_violation_ticks : ℕ

pub record MachineEntry : Type 0 where
  pub state : MachineState
  pub inc : Option Incident
  pub cooldown_until : ℕ

-- The entry of a key that `Step` meets for the first time.
abbrev pub fresh : MachineEntry
fresh = record { state = idle; inc = none; cooldown_until = 0 }

abbrev pub grace_ticks : Threshold → ℕ
grace_ticks t = if eqb t.grace_sec 0 then 60 else t.grace_sec

abbrev pub max : ℕ → ℕ → ℕ
max a b = if ltb a b then b else a

abbrev pub with_peaks : Input → Incident → Incident
with_peaks i inc = record inc {
  peak_pps = max inc.peak_pps i.current_pps;
  peak_bps = max inc.peak_bps i.current_bps;
}

-- The event literals of `Step`, which differ in the state and the end.
abbrev pub report : State → Option ℕ → Key → Input → Incident → AttackEvent
report state ended_at k i inc = record {
  incident_id = inc.id;
  state = state;
  host_ip = k.host_ip;
  vector = k.vector;
  hostgroup = i.hostgroup;
  pps = i.current_pps;
  bps = i.current_bps;
  peak_pps = inc.peak_pps;
  peak_bps = inc.peak_bps;
  confidence = i.confidence;
  started_at = inc.started_at;
  ended_at = ended_at;
  now = i.now;
}

abbrev pub opened : String → Input → Incident
opened id i = record {
  id = id;
  started_at = i.now;
  initial_peak_pps = i.current_pps;
  initial_peak_bps = i.current_bps;
  peak_pps = i.current_pps;
  peak_bps = i.current_bps;
  update_emitted = false;
  no_violation_ticks = 0;
}

-- The doubled peaks are `uint64`.
abbrev pub is_due : Input → Incident → Bool
is_due i inc =
    leb update_after_duration (i.now - inc.started_at)
    || ltb ((2 * inc.initial_peak_pps) % 2 ^ 64) inc.peak_pps
    || ltb ((2 * inc.initial_peak_bps) % 2 ^ 64) inc.peak_bps

-- The case `stateActive` of a tick without a violation, with the peaks updated.
unfoldable pub quiet_step :
    Key → Input → Threshold → Incident → MachineEntry → Option AttackEvent × MachineEntry
quiet_step k i t inc e =
    let inc' = record inc { no_violation_ticks = inc.no_violation_ticks + 1 } in
    if leb (grace_ticks t) inc'.no_violation_ticks
    then (
      some (report ended (some i.now) k i inc'),
      record { state = cooldown; inc = none; cooldown_until = i.now + cooldown_after_end },
    )
    else (none, record e { inc = some inc' })

-- The case `stateActive` of a violating tick, with the peaks updated.
unfoldable pub loud_step : Key → Input → Incident → MachineEntry → Option AttackEvent × MachineEntry
loud_step k i inc e =
    let inc' = record inc { no_violation_ticks = 0 } in
    if not inc'.update_emitted && is_due i inc'
    then (
      some (report updated none k i inc'),
      record e { inc = some (record inc' { update_emitted = true }) },
    )
    else (none, record e { inc = some inc' })

unfoldable pub active_step :
    Key → Input → Threshold → Incident → MachineEntry → Option AttackEvent × MachineEntry
unfolding quiet_step loud_step
active_step k i t inc e =
    if not i.violating
    then quiet_step k i t (with_peaks i inc) e
    else loud_step k i (with_peaks i inc) e

abbrev pub opens : Input → Threshold → Bool
opens i t = i.violating && not (ltb i.duration_violated t.min_window_sec)

-- The generator of identifiers is a package: it is given an instant and its own state.
module _ {R : Type 0} (new_ulid : ℕ → R → String × R) where
  unfoldable pub idle_step :
      Key → Input → Threshold → MachineEntry → R → Option AttackEvent × MachineEntry × R
  idle_step k i t e rnd =
      if opens i t
      then (let (id, rnd') = new_ulid i.now rnd in
          (
            some (report started none k i (opened id i)),
            record e { state = active; inc = some (opened id i) },
            rnd',
          ))
      else (none, e, rnd)

  -- `Step` on the entry of its key.
  unfoldable pub step_entry :
      Key → Input → Threshold → MachineEntry → R → Option (Option AttackEvent × MachineEntry × R)
  unfolding idle_step active_step
  step_entry k i t e rnd = elim e.state [
    | idle ↦ some (idle_step k i t e rnd)
    | active ↦ elim e.inc [
      | none ↦ none
      | some inc ↦ let (ev, e') = active_step k i t inc e in some (ev, e', rnd)
    ]
    | cooldown ↦
        some (none, (if ltb e.cooldown_until i.now then record e { state = idle } else e), rnd)
  ]

  -- Ticks one after the other, with the events they emit.
  unfoldable pub run :
      Key → Threshold → List Input → MachineEntry → R → Option (List AttackEvent × MachineEntry × R)
  unfolding step_entry
  run k t [] e rnd = some ([], e, rnd)
  run k t (i ∷ is) e rnd = elim (step_entry k i t e rnd) [
    | none ↦ none
    | some (ev, e', rnd') ↦ elim (run k t is e' rnd') [
      | none ↦ none
      | some (evs, last, rnd'') ↦ some ((elim ev [ none ↦ evs | some a ↦ a ∷ evs ]), last, rnd'')
    ]
  ]
