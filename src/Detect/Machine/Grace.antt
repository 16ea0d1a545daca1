-- ===== src/Detect/Machine/Grace.antt =====
-- How an attack ends (internal/detect/state.go, the grace period).
use mitigador.Base.{
  ℕ, ◌+◌, String, true, false, none, some, List, [], ◌∷◌, ◌≡◌, refl, arith, leb, length, All,
}
use mitigador.Detect.{ended, AttackEvent, Threshold}
use mitigador.Detect.Machine.Contract.{run_cons}
use mitigador.Detect.Machine.{
  Key, Input, Incident, MachineEntry, active, cooldown, cooldown_after_end, max, grace_ticks,
  report, with_peaks, quiet_step, active_step, step_entry, run,
}

-- The highest of a number and those of the ticks.
abbrev pub highest : (Input → ℕ) → ℕ → List Input → ℕ
highest f m [] = m
highest f m (i ∷ is) = highest f (max m (f i)) is

-- An attack whose last `no_violation_ticks` ticks were below its thresholds.
abbrev pub under_attack : Incident → ℕ → MachineEntry
under_attack inc until = record { state = active; inc = some inc; cooldown_until = until }

-- The end of an attack, after the given ticks, and that of the cooldown.
abbrev IsEnd : Incident → List Input → AttackEvent → ℕ → Type 0
IsEnd inc is a until =
    (a.state ≡ ended)
    × (a.incident_id ≡ inc.id)
    × (a.started_at ≡ inc.started_at)
    × (a.ended_at ≡ some a.now)
    × (until ≡ a.now + cooldown_after_end)
    × (a.peak_pps ≡ highest (λ i. i.current_pps) inc.peak_pps is)
    × (a.peak_bps ≡ highest (λ i. i.current_bps) inc.peak_bps is)

-- The incident after a tick below its thresholds that does not end it.
abbrev calmer : Input → Incident → Incident
calmer i inc = record (with_peaks i inc) { no_violation_ticks = inc.no_violation_ticks + 1 }

module _ {R : Type 0} (new_ulid : ℕ → R → String × R) where
  step-calmer :
      (k : Key) (t : Threshold) (i : Input) (inc : Incident) (until : ℕ) (rnd : R)
      → i.violating ≡ false
      → leb (grace_ticks t) (inc.no_violation_ticks + 1) ≡ false
      → step_entry new_ulid k i t (under_attack inc until) rnd
        ≡ some (none, under_attack (calmer i inc) until, rnd)
  unfolding step_entry active_step quiet_step
  step-calmer k t i inc until rnd still few = rw (still, few, active_step, quiet_step) refl

  step-ended :
      (k : Key) (t : Threshold) (i : Input) (inc : Incident) (until : ℕ) (rnd : R)
      → i.violating ≡ false
      → leb (grace_ticks t) (inc.no_violation_ticks + 1) ≡ true
      → step_entry new_ulid k i t (under_attack inc until) rnd
        ≡ some (
          some (report ended (some i.now) k i (calmer i inc)),
          record { state = cooldown; inc = none; cooldown_until = i.now + cooldown_after_end },
          rnd,
        )
  unfolding step_entry active_step quiet_step
  step-ended k t i inc until rnd still over = rw (still, over, active_step, quiet_step) refl

  -- An attack ends on the last of as many ticks in a row below its thresholds as its grace period
  -- has seconds, 60 if none are set: those ticks emit one event, its end, with the peaks of the
  -- attack and of the ticks, and the cooldown lasts until 60 seconds later.
  pub run-Ends :
      (k : Key) (t : Threshold) (i : Input) (is : List Input) (inc : Incident) (until : ℕ) (rnd : R)
      → All (λ j. j.violating ≡ false) (i ∷ is)
      → inc.no_violation_ticks + length (i ∷ is) ≡ grace_ticks t
      → (a : AttackEvent) × (until' : ℕ) × (run new_ulid k t (i ∷ is) (under_attack inc until) rnd
          ≡ some (a ∷ [], record { state = cooldown; inc = none; cooldown_until = until' }, rnd))
        × IsEnd inc (i ∷ is) a until'
  unfolding run
  run-Ends k t i [] inc until rnd (still, _) e = (
    report ended (some i.now) k i (calmer i inc),
    i.now + cooldown_after_end,
    run_cons new_ulid k t i [] (under_attack inc until) rnd _ _ rnd [] _ rnd
        (step-ended k t i inc until rnd still (ground (arith, e))) refl,
    (refl, refl, refl, refl, refl, refl, refl),
  )
  run-Ends k t i (j ∷ js) inc until rnd (still, quiet) e =
      let (a, until', ran, rest) =
        run-Ends k t j js (calmer i inc) until rnd quiet (omega (arith, e)) in
      (
        a,
        until',
        run_cons new_ulid k t i (j ∷ js) (under_attack inc until) rnd _ _ rnd (a ∷ []) _ rnd
            (step-calmer k t i inc until rnd still (ground (arith, e))) ran,
        rest,
      )
