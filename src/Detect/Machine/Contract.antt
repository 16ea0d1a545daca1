-- ===== src/Detect/Machine/Contract.antt =====
-- The contract on the events of one host and vector (internal/detect/event.go), and that each step
-- of the state machine (internal/detect/state.go) keeps it.
use mitigador.Base.{
  ℕ, ◌+◌, ◌≤◌, String, Bool, true, false, Option, none, some, List, [], ◌∷◌, ◌≡◌, ◌⊎◌, inl, inr,
  refl, arith, Bool-cases, ◌∙◌, ltb, ltb→lt, sym, if◌then◌else◌, not, leb, ◌&&◌,
}
use mitigador.Detect.{started, updated, ended, AttackEvent, Threshold}
use mitigador.Detect.Machine.{
  Key, Input, Incident, MachineEntry, idle, active, cooldown, cooldown_after_end, grace_ticks,
  is_due, report, opened, opens, with_peaks, quiet_step, loud_step, active_step, idle_step,
  step_entry, run,
}

-- Between two attacks, with the first instant at which the next one may start; or in an attack, with
-- its last event, and whether an update has been told.
pub data Phase : Type 0 where
  quiet : ℕ → Phase
  attack : AttackEvent → Bool → Phase

-- The event is about the same attack as the one before, and its peaks are no lower.
abbrev pub Follows : Key → AttackEvent → AttackEvent → Type 0
Follows k a b =
    (b.incident_id ≡ a.incident_id)
    × (b.host_ip ≡ k.host_ip)
    × (b.vector ≡ k.vector)
    × (b.started_at ≡ a.started_at)
    × (a.peak_pps ≤ b.peak_pps)
    × (a.peak_bps ≤ b.peak_bps)

-- The events that the contract allows from a phase on: a start, at most one update, an end, and the
-- next start no earlier than 60 seconds after the end.
abbrev pub Admits : Key → Phase → List AttackEvent → Type 0
Admits k p [] = Unit
Admits k (quiet t) (b ∷ evs) =
    (b.state ≡ started)
    × (b.host_ip ≡ k.host_ip)
    × (b.vector ≡ k.vector)
    × (b.started_at ≡ b.now)
    × (t ≤ b.now)
    × Admits k (attack b false) evs
Admits k (attack a told) (b ∷ evs) =
    Follows k a b
    × (((b.state ≡ updated) × (told ≡ false) × Admits k (attack b true) evs)
        ⊎ ((b.state ≡ ended)
            × (b.ended_at ≡ some b.now)
            × Admits k (quiet (b.now + cooldown_after_end)) evs))

-- The incident that an entry keeps is the attack of the last event.
abbrev Keeps : AttackEvent → Bool → Incident → Type 0
Keeps a told inc =
    (a.incident_id ≡ inc.id)
    × (a.started_at ≡ inc.started_at)
    × (a.peak_pps ≤ inc.peak_pps)
    × (a.peak_bps ≤ inc.peak_bps)
    × (inc.update_emitted ≡ told)

-- An entry stands for a phase, after the instant `now`.
pub data Stands (now : ℕ) : Phase → MachineEntry → Type 0 where
  at_rest :
      {t : ℕ} {inc : Option Incident} {until : ℕ}
      → t ≤ now
      → Stands now (quiet t) (record { state = idle; inc = inc; cooldown_until = until })
  at_work :
      {a : AttackEvent} {told : Bool} {inc : Incident} {until : ℕ}
      → Keeps a told inc
      → Stands now
          (attack a told)
          (record { state = active; inc = some inc; cooldown_until = until })
  cooling :
      {inc : Option Incident} {until : ℕ}
      → Stands now (quiet until) (record { state = cooldown; inc = inc; cooldown_until = until })

-- What one event, or none, makes of a phase, as the contract allows it.
abbrev pub Moves : Key → Phase → Option AttackEvent → Phase → Type 0
Moves k p none q = p ≡ q
Moves k p (some b) q = (evs : List AttackEvent) → Admits k q evs → Admits k p (b ∷ evs)

-- An event, or none, and the entry after it are allowed from a phase.
abbrev pub Fits : Key → Phase → ℕ → Option AttackEvent → MachineEntry → Type 0
Fits k p now ev e = (q : Phase) × Moves k p ev q × Stands now q e

quiet-Fits :
    (k : Key) (i : Input) (t : Threshold) (a : AttackEvent) (told : Bool) (inc : Incident)
    (until : ℕ)
    → Keeps a told inc
    → let (ev, e) =
        quiet_step k i t inc (record { state = active; inc = some inc; cooldown_until = until }) in
      Fits k (attack a told) i.now ev e
unfolding quiet_step
quiet-Fits k i t a told inc until kept =
    elim (Bool-cases (leb (grace_ticks t) (inc.no_violation_ticks + 1))) [
      | inl over ↦ rw over (
        quiet (i.now + cooldown_after_end),
        λ evs adm. ((cc, refl, refl, cc, kept.2, kept.3), inr (refl, refl, adm)),
        cooling,
      )
      | inr on ↦ rw on (attack a told, refl, at_work kept)
    ]

untold : (a b : Bool) → (not a && b) ≡ true → a ≡ false
untold true b h = sym h
untold false b h = refl

loud-Fits :
    (k : Key) (i : Input) (a : AttackEvent) (told : Bool) (inc : Incident) (until : ℕ)
    → Keeps a told inc
    → let (ev, e) =
        loud_step k i inc (record { state = active; inc = some inc; cooldown_until = until }) in
      Fits k (attack a told) i.now ev e
unfolding loud_step
loud-Fits k i a told inc until kept = elim (Bool-cases (not inc.update_emitted && is_due i inc)) [
  | inl due ↦ rw due (
    attack (report updated none k i inc) true,
    λ evs adm. ((cc, refl, refl, cc, kept.2, kept.3), inl (refl, sym kept.4 ∙ untold _ _ due, adm)),
    at_work (refl, refl, omega arith, omega arith, refl),
  )
  | inr on ↦ rw on (attack a told, refl, at_work kept)
]

active-Fits :
    (k : Key) (i : Input) (t : Threshold) (a : AttackEvent) (told : Bool) (inc : Incident)
    (until : ℕ)
    → Keeps a told inc
    → let (ev, e) =
        active_step k i t inc (record { state = active; inc = some inc; cooldown_until = until }) in
      Fits k (attack a told) i.now ev e
unfolding active_step
active-Fits k i t a told inc until kept = elim (Bool-cases i.violating) [
  | inl loud ↦ rw loud (loud-Fits k i a told (with_peaks i inc) until higher)
  | inr still ↦ rw still (quiet-Fits k i t a told (with_peaks i inc) until higher)
]
  where
    higher : Keeps a told (with_peaks i inc)
    higher = ground arith

module _ {R : Type 0} (new_ulid : ℕ → R → String × R) where
  idle-Fits :
      (k : Key) (i : Input) (t : Threshold) (u : ℕ) (inc : Option Incident) (until : ℕ) (rnd : R)
      → u ≤ i.now
      → let (ev, e, _) =
          idle_step new_ulid k i t
            (record { state = idle; inc = inc; cooldown_until = until })
            rnd in
        Fits k (quiet u) i.now ev e
  unfolding idle_step
  idle-Fits k i t u inc until rnd h = elim (Bool-cases (opens i t)) [
    | inl open' ↦ rw open' (
      attack (report started none k i (opened (new_ulid i.now rnd).0 i)) false,
      λ evs adm. (refl, refl, refl, refl, h, adm),
      at_work (refl, refl, omega arith, omega arith, refl),
    )
    | inr shut ↦ rw shut (quiet u, refl, at_rest h)
  ]

  -- A step of an entry that stands for a phase is taken, and its event is allowed.
  pub step-Fits :
      (k : Key) (i : Input) (t : Threshold) {now : ℕ} (p : Phase) (e : MachineEntry) (rnd : R)
      → Stands now p e
      → now ≤ i.now
      → (ev : Option AttackEvent) × (e' : MachineEntry) × (rnd' : R) × (step_entry new_ulid k i t e
            rnd
          ≡ some (ev, e', rnd'))
        × Fits k p i.now ev e'
  unfolding step_entry
  step-Fits k i t p _ rnd (at_rest {t = u} {inc} {until} h) le =
      (_, _, _, refl, idle-Fits k i t u inc until rnd (omega arith))
  step-Fits k i t p _ rnd (at_work {a} {told} {inc} {until} kept) le =
      (_, _, rnd, refl, active-Fits k i t a told inc until kept)
  step-Fits k i t p _ rnd (cooling {inc} {until}) le =
      (none, _, rnd, refl, (quiet until, refl, after (Bool-cases (ltb until i.now))))
    where
      after :
          (ltb until i.now ≡ true) ⊎ (ltb until i.now ≡ false)
          → Stands i.now (quiet until) (
              if ltb until i.now
              then record { state = idle; inc = inc; cooldown_until = until }
              else record { state = cooldown; inc = inc; cooldown_until = until })
      after (inl gone) = rw gone (at_rest (omega (arith, ltb→lt until i.now gone)))
      after (inr on) = rw on cooling

  -- `Step` and then the other ticks.
  pub run_cons :
      (k : Key) (t : Threshold) (i : Input) (is : List Input) (e : MachineEntry) (rnd : R)
      (ev : Option AttackEvent) (e' : MachineEntry) (rnd' : R) (evs : List AttackEvent)
      (last : MachineEntry) (rnd'' : R)
      → step_entry new_ulid k i t e rnd ≡ some (ev, e', rnd')
      → run new_ulid k t is e' rnd' ≡ some (evs, last, rnd'')
      → run new_ulid k t (i ∷ is) e rnd
        ≡ some ((elim ev [ none ↦ evs | some a ↦ a ∷ evs ]), last, rnd'')
  unfolding run
  run_cons k t i is e rnd ev e' rnd' evs last rnd'' h h' = rw (h, h', run) refl
