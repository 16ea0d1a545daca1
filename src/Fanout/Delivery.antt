-- ===== src/Fanout/Delivery.antt =====
-- What a subscriber of the bus or of the broker gets, whatever the others do
-- (internal/alert/bus.go, internal/api/sse.go).
use mathlib.Core.Option
use mitigador.Base.{
  ℕ, false, Option, none, some, is_some, List, [], ◌∷◌, ◌++◌, map, eqb, if◌then◌else◌, ◌≡◌, refl,
  arith, Bool-cases, Option-cases, eqb_refl, inl, inr, ◌∙◌, subst,
}
use mitigador.Fanout.{
  Subscriber, Step, send, receive, subscribe, unsubscribe, offer, take_one, take_first,
  new_subscriber, find, receive_at, remove, add, step, run,
}

module _ {A : Type 0} (size : ℕ) (k : ℕ) where
  -- What a step makes of the one subscriber.
  abbrev pub step_one : Step A → Option (Subscriber A) → Option (Subscriber A)
  step_one (send x) o = Option.map (offer size x) o
  step_one (receive j) o = if eqb j k then Option.map take_one o else o
  step_one (subscribe j) none = if eqb j k then some (new_subscriber k) else none
  step_one (subscribe j) (some s) = some s
  step_one (unsubscribe j) o = if eqb j k then none else o

  abbrev pub run_one : List (Step A) → Option (Subscriber A) → Option (Subscriber A)
  run_one [] o = o
  run_one (x ∷ steps) o = run_one steps (step_one x o)

  find-offer :
      (x : A) (subs : List (Subscriber A))
      → find k (map (offer size x) subs) ≡ Option.map (offer size x) (find k subs)
  unfolding find offer
  find-offer x [] = refl
  find-offer x (s ∷ subs) = ground (arith, find-offer x subs)

  take_first-channel : (b : List A) (s : Subscriber A) → (take_first b s).channel ≡ s.channel
  take_first-channel [] s = refl
  take_first-channel (x ∷ b) s = refl

  find-receive_at :
      (j : ℕ) (subs : List (Subscriber A))
      → find k (receive_at j subs)
        ≡ (if eqb j k then Option.map take_one (find k subs) else find k subs)
  unfolding find receive_at take_one
  find-receive_at j [] = ground arith
  find-receive_at j (s ∷ subs) =
      ground (arith, find-receive_at j subs, take_first-channel s.buffer s)

  find-remove :
      (j : ℕ) (subs : List (Subscriber A))
      → find k (remove j subs) ≡ (if eqb j k then none else find k subs)
  unfolding find remove
  find-remove j [] = ground arith
  find-remove j (s ∷ subs) = ground (arith, find-remove j subs)

  find-append :
      (j : ℕ) (subs : List (Subscriber A))
      → find k (subs ++ new_subscriber j ∷ []) ≡ (
          if is_some (find k subs)
          then find k subs
          else if eqb j k
          then some (new_subscriber j)
          else none)
  unfolding find
  find-append j [] = ground arith
  find-append j (s ∷ subs) = ground (arith, find-append j subs)

  find-add_self :
      (subs : List (Subscriber A)) → find k (add k subs) ≡ step_one (subscribe k) (find k subs)
  unfolding add
  find-add_self subs = elim (Option-cases (find k subs)) [
    | inl e ↦ rw e (find-append k subs ∙ rw (e, eqb_refl k) refl)
    | inr (s, e) ↦ rw e e
  ]

  find-append_ne :
      (j : ℕ) (subs : List (Subscriber A))
      → eqb j k ≡ false
      → find k (subs ++ new_subscriber j ∷ []) ≡ find k subs
  unfolding find
  find-append_ne j [] h = rw h refl
  find-append_ne j (s ∷ subs) h = ground (arith, find-append_ne j subs h)

  subscribe_ne :
      (j : ℕ) (o : Option (Subscriber A)) → eqb j k ≡ false → o ≡ step_one (subscribe j) o
  subscribe_ne j none h = rw h refl
  subscribe_ne j (some s) h = refl

  find-add :
      (j : ℕ) (subs : List (Subscriber A))
      → find k (add j subs) ≡ step_one (subscribe j) (find k subs)
  unfolding add
  find-add j subs = elim (Bool-cases (eqb j k)) [
    | inl e ↦
        let same : k ≡ j = ground arith in
        subst (λ m. find k (add m subs) ≡ step_one (subscribe m) (find k subs)) same
          (find-add_self subs)
    | inr e ↦ elim (Bool-cases (is_some (find j subs))) [
      | inl there ↦ rw there (subscribe_ne j (find k subs) e)
      | inr new ↦ rw new (find-append_ne j subs e ∙ subscribe_ne j (find k subs) e)
    ]
  ]

  find-step :
      (x : Step A) (subs : List (Subscriber A))
      → find k (step size x subs) ≡ step_one x (find k subs)
  unfolding step
  find-step (send x) subs = find-offer x subs
  find-step (receive j) subs = find-receive_at j subs
  find-step (subscribe j) subs = find-add j subs
  find-step (unsubscribe j) subs = find-remove j subs

  -- What becomes of a subscriber is what the events, its own receives and its own subscription make
  -- of it alone: nothing that another subscriber does, or does not do, changes it.
  pub find-run :
      (steps : List (Step A)) (subs : List (Subscriber A))
      → find k (run size steps subs) ≡ run_one steps (find k subs)
  unfolding run
  find-run [] subs = refl
  find-run (x ∷ steps) subs = rw⁻¹ (find-step x subs) (find-run steps (step size x subs))
