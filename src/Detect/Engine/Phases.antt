-- ===== src/Detect/Engine/Phases.antt =====
-- The phases of all the engine's hosts and vectors (internal/detect/engine.go, internal/detect/state.go).
use mathlib.Core.Path.{ap₂}
use mathlib.Core.Bool.{true≢false}
use mitigador.Base.{
  ℕ, ◌≤◌, true, false, Option, none, some, List, [], ◌∷◌, keep, if◌then◌else◌, ◌≡◌, inl, inr, refl,
  sym, subst, ◌∙◌, arith, Bool-cases,
}
use mitigador.Detect.{AttackEvent}
use mitigador.Detect.Machine.{Key, MachineEntry}
use mitigador.Detect.Machine.Contract.{
  Phase, quiet, attack, Admits, Stands, at_rest, at_work, cooling, Moves,
}
use mitigador.Detect.Engine.Keys.{same_key-eq, same_key_refl}
use mitigador.Detect.Engine.{same_key, put, and_then}

-- The key of the attack that an event tells of.
abbrev pub key_of : AttackEvent → Key
key_of a = record { host_ip = a.host_ip; vector = a.vector }

-- The events of a key, in their order.
abbrev pub events_of : Key → List AttackEvent → List AttackEvent
events_of k evs = keep (λ a. same_key (key_of a) k) evs

-- Every event that a phase allows is of its key.
Admits-key : (k : Key) (p : Phase) (a : AttackEvent) → Admits k p (a ∷ []) → key_of a ≡ k
Admits-key k (quiet t) a adm = ap₂ (λ x y. record { host_ip = x; vector = y }) adm.1 adm.2
Admits-key k (attack b told) a adm = ap₂ (λ x y. record { host_ip = x; vector = y }) adm.0.1 adm.0.2

-- The phases of all the keys.
abbrev pub Phases : Type 0
Phases = Key → Phase

abbrev pub AllStand : ℕ → Phases → (Key → MachineEntry) → Type 0
AllStand now ps entries = (k : Key) → Stands now (ps k) (entries k)

abbrev pub AllAdmit : Phases → List AttackEvent → Type 0
AllAdmit ps evs = (k : Key) → Admits k (ps k) (events_of k evs)

pub Stands-le :
    (now now' : ℕ) (p : Phase) (e : MachineEntry) → now ≤ now' → Stands now p e → Stands now' p e
Stands-le now now' p e le (at_rest h) = at_rest (omega (arith, le, h))
Stands-le now now' p e le (at_work kept) = at_work kept
Stands-le now now' p e le cooling = cooling

-- The key whose phase moves, and the others.
and_then-moved :
    (k : Key) (p q : Phase) (ev : Option AttackEvent) (evs : List AttackEvent)
    → Moves k p ev q
    → Admits k q (events_of k evs)
    → Admits k p (events_of k (and_then ev evs))
and_then-moved k p q none evs same adm = subst (λ r. Admits k r (events_of k evs)) (sym same) adm
and_then-moved k p q (some a) evs moves adm = rw own (moves (events_of k evs) adm)
  where
    own : same_key (key_of a) k ≡ true
    own = subst (λ x. same_key x k ≡ true) (sym (Admits-key k p a (moves [] tt))) (same_key_refl k)

and_then-others :
    (k k' : Key) (p q : Phase) (ev : Option AttackEvent) (evs : List AttackEvent)
    → Moves k p ev q
    → same_key k' k ≡ false
    → events_of k' (and_then ev evs) ≡ events_of k' evs
and_then-others k k' p q none evs moves other = refl
and_then-others k k' p q (some a) evs moves other = elim (Bool-cases (same_key (key_of a) k')) [
  | inl same ↦ absurd (clash same)
  | inr apart ↦ rw apart refl
]
  where
    clash : same_key (key_of a) k' ≡ true → ⊥
    clash same = true≢false (
        subst (λ x. true ≡ same_key x k)
          (sym (Admits-key k p a (moves [] tt)) ∙ same_key-eq (key_of a) k' same)
          (sym (same_key_refl k))
        ∙ other)

pub and_then-AllAdmit :
    (k : Key) (q : Phase) (ps : Phases) (ev : Option AttackEvent) (evs : List AttackEvent)
    → Moves k (ps k) ev q
    → AllAdmit (put k q ps) evs
    → AllAdmit ps (and_then ev evs)
and_then-AllAdmit k q ps ev evs moves all k' = elim (Bool-cases (same_key k' k)) [
  | inl same ↦
      subst (λ x. Admits x (ps x) (events_of x (and_then ev evs))) (sym (same_key-eq k' k same))
        (and_then-moved k (ps k) q ev evs moves at_key)
  | inr other ↦ rw (and_then-others k k' (ps k) q ev evs moves other) (elsewhere other)
]
  where
    at_key : Admits k q (events_of k evs)
    at_key =
        subst (λ b. Admits k (if b then q else ps k) (events_of k evs)) (same_key_refl k) (all k)

    elsewhere : same_key k' k ≡ false → Admits k' (ps k') (events_of k' evs)
    elsewhere other =
        subst (λ b. Admits k' (if b then q else ps k') (events_of k' evs)) other (all k')

pub AllStand-put :
    (now now' : ℕ) (k : Key) (q : Phase) (ps : Phases) (entry : MachineEntry)
    (entries : Key → MachineEntry)
    → now ≤ now'
    → AllStand now ps entries
    → Stands now' q entry
    → AllStand now' (put k q ps) (put k entry entries)
AllStand-put now now' k q ps entry entries le all stands k' = elim (Bool-cases (same_key k' k)) [
  | inl same ↦ rw same stands
  | inr other ↦ rw other (Stands-le now now' (ps k') (entries k') le (all k'))
]
