-- ===== src/Fanout/Served.antt =====
-- What a subscriber of the bus or of the broker is served (internal/alert/bus.go,
-- internal/api/sse.go).
use mathlib.Core.List.{append_assoc, append-nil}
use mitigador.Base.{
  ℕ, suc, ◌+◌, ◌-◌, ◌≤◌, Bool, if◌then◌else◌, true, false, none, some, List, [], ◌∷◌, ◌++◌, length,
  length-append, ltb, eqb, ◌≡◌, refl, arith, Bool-cases, eqb_refl, inl, inr, ◌∙◌, ap, sym, All,
}
use mitigador.Fanout.{
  Subscriber, Step, send, receive, subscribe, unsubscribe, offer, take_one, take_first,
  new_subscriber, find, run,
}
use mitigador.Fanout.Delivery.{run_one, find-run}

-- The first list is the second one without some of its elements.
pub data IsPart {A : Type 0} : List A → List A → Type 0 where
  none_left : IsPart [] []
  kept : {x : A} {xs ys : List A} → IsPart xs ys → IsPart (x ∷ xs) (x ∷ ys)
  dropped : {x : A} {xs ys : List A} → IsPart xs ys → IsPart xs (x ∷ ys)

-- What is sent in some steps.
abbrev pub sent : {A : Type 0} → List (Step A) → List A
sent [] = []
sent (send x ∷ steps) = x ∷ sent steps
sent (_ ∷ steps) = sent steps

-- What a subscriber has received and what waits for it.
abbrev pub got : {A : Type 0} → Subscriber A → List A
got s = s.received ++ s.buffer

abbrev pub leaves : {A : Type 0} → ℕ → Step A → Bool
leaves k (unsubscribe j) = eqb j k
leaves k _ = false

-- Counting only how many wait for a subscriber: how many do after some steps, and what of what is
-- sent in them finds room.
abbrev pub waiting : {A : Type 0} → ℕ → ℕ → ℕ → List (Step A) → ℕ
waiting size k n [] = n
waiting size k n (send x ∷ steps) = waiting size k (if ltb n size then suc n else n) steps
waiting size k n (receive j ∷ steps) = waiting size k (if eqb j k then n - 1 else n) steps
waiting size k n (_ ∷ steps) = waiting size k n steps

abbrev pub finds_room : {A : Type 0} → ℕ → ℕ → ℕ → List (Step A) → List A
finds_room size k n [] = []
finds_room size k n (send x ∷ steps) =
    let more = finds_room size k (suc n) steps in
    let rest = finds_room size k n steps in if ltb n size then x ∷ more else rest
finds_room size k n (receive j ∷ steps) = finds_room size k (if eqb j k then n - 1 else n) steps
finds_room size k n (_ ∷ steps) = finds_room size k n steps

-- How a subscriber is served in some steps: it gets what was sent to it, in its order, without what
-- found its buffer full; and all of it, if that is no more than its buffer has room for.
pub record IsServed {A : Type 0} (size k : ℕ) (steps : List (Step A)) (s s' : Subscriber A)
    : Type 0 where
  pub fits : length s'.buffer ≤ size
  pub part : List A
  pub in_order : IsPart part (sent steps)
  pub gets : got s' ≡ got s ++ part
  pub exact : part ≡ finds_room size k (length s.buffer) steps
  pub left : length s'.buffer ≡ waiting size k (length s.buffer) steps
  pub complete : length s.buffer + length (sent steps) ≤ size → part ≡ sent steps

module _ {A : Type 0} (size : ℕ) (k : ℕ) where
  take_first-got :
      (b : List A) (s : Subscriber A)
      → s.buffer ≡ b
      → (got (take_first b s) ≡ got s) × (length (take_first b s).buffer ≡ length s.buffer - 1)
  take_first-got [] s e = (refl, rw e (omega (arith, ap length e)))
  take_first-got (x ∷ b) s e =
      (append_assoc s.received (x ∷ []) b ∙ ap (s.received ++◌) (sym e), rw e (omega arith))

  -- A step that sends nothing, and moves nothing but the head of the buffer.
  IsServed-quiet :
      (x : Step A) (steps : List (Step A)) (s s₁ s' : Subscriber A)
      → sent (x ∷ steps) ≡ sent steps
      → got s₁ ≡ got s
      → length s₁.buffer ≤ length s.buffer
      → finds_room size k (length s.buffer) (x ∷ steps) ≡ finds_room size k (length s₁.buffer) steps
      → waiting size k (length s.buffer) (x ∷ steps) ≡ waiting size k (length s₁.buffer) steps
      → IsServed size k steps s₁ s'
      → IsServed size k (x ∷ steps) s s'
  IsServed-quiet x steps s s₁ s' quiet same fewer room wait h = record {
    fits = h.fits;
    part = h.part;
    in_order = rw quiet h.in_order;
    gets = h.gets ∙ ap (λ l. l ++ h.part) same;
    exact = h.exact ∙ sym room;
    left = h.left ∙ sym wait;
    complete = λ few. rw quiet (h.complete (omega (arith, rw quiet at few, fewer)));
  }

  abbrev Outcome : List (Step A) → Subscriber A → Type 0
  Outcome steps s =
      (s' : Subscriber A) × (run_one size k steps (some s) ≡ some s') × IsServed size k steps s s'

  longer : (s : Subscriber A) (x : A) → length (s.buffer ++ x ∷ []) ≡ suc (length s.buffer)
  longer s x = omega (arith, length-append s.buffer (x ∷ []))

  send-kept :
      (x : A) (steps : List (Step A)) (s s' : Subscriber A)
      → ltb (length s.buffer) size ≡ true
      → IsServed size k steps (record s { buffer = s.buffer ++ x ∷ [] }) s'
      → IsServed size k (send x ∷ steps) s s'
  send-kept x steps s s' room h = record {
    fits = h.fits;
    part = x ∷ h.part;
    in_order = kept h.in_order;
    gets = h.gets ∙ simp append_assoc refl;
    exact = rw room (ap (x ∷◌) (h.exact ∙ ap (λ n. finds_room size k n steps) (longer s x)));
    left = rw room (h.left ∙ ap (λ n. waiting size k n steps) (longer s x));
    complete = λ few. ap (x ∷◌) (h.complete (omega (arith, few, length-append s.buffer (x ∷ []))));
  }

  send-dropped :
      (x : A) (steps : List (Step A)) (s s' : Subscriber A)
      → ltb (length s.buffer) size ≡ false
      → IsServed size k steps s s'
      → IsServed size k (send x ∷ steps) s s'
  send-dropped x steps s s' full h = record {
    fits = h.fits;
    part = h.part;
    in_order = dropped h.in_order;
    gets = h.gets;
    exact = rw full h.exact;
    left = rw full h.left;
    complete = λ few. ground (arith, few, full);
  }

  -- A subscriber that does not leave is served by any steps.
  pub run_one-IsServed :
      (steps : List (Step A)) (s : Subscriber A)
      → All (λ x. leaves k x ≡ false) steps
      → length s.buffer ≤ size
      → Outcome steps s
  unfolding offer take_one
  run_one-IsServed [] s stays h = (
    s,
    refl,
    record {
      fits = h;
      part = [];
      in_order = none_left;
      gets = sym (append-nil (got s));
      exact = refl;
      left = refl;
      complete = λ room. refl;
    },
  )
  run_one-IsServed (send x ∷ steps) s stays h = elim (Bool-cases (ltb (length s.buffer) size)) [
    | inl room ↦
        let (s', e, served) =
          run_one-IsServed steps (record s { buffer = s.buffer ++ x ∷ [] }) stays.1
            (ground (arith, length-append s.buffer (x ∷ []))) in
        (s', rw room e, send-kept x steps s s' room served)
    | inr full ↦
        let (s', e, served) = run_one-IsServed steps s stays.1 h in
        (s', rw full e, send-dropped x steps s s' full served)
  ]
  run_one-IsServed (receive j ∷ steps) s stays h = elim (Bool-cases (eqb j k)) [
    | inl own ↦
        let (same, fewer) = take_first-got s.buffer s refl in
        let (s', e, served) =
          run_one-IsServed steps (take_one s) stays.1 (omega (arith, fewer, h)) in
        (
          s',
          rw own e,
          IsServed-quiet (receive j) steps s (take_one s) s' refl same (omega (arith, fewer))
              (rw (own, fewer) refl) (rw (own, fewer) refl) served,
        )
    | inr other ↦
        let (s', e, served) = run_one-IsServed steps s stays.1 h in
        (
          s',
          rw other e,
          IsServed-quiet (receive j) steps s s s' refl refl (omega arith) (rw other refl)
              (rw other refl) served,
        )
  ]
  run_one-IsServed (subscribe j ∷ steps) s stays h =
      let (s', e, served) = run_one-IsServed steps s stays.1 h in
      (s', e, IsServed-quiet (subscribe j) steps s s s' refl refl (omega arith) refl refl served)
  run_one-IsServed (unsubscribe j ∷ steps) s stays h =
      let (s', e, served) = run_one-IsServed steps s stays.1 h in
      (
        s',
        rw stays.0 e,
        IsServed-quiet (unsubscribe j) steps s s s' refl refl (omega arith) refl refl served,
      )

  -- A subscriber that is new, and does not leave, is served by whatever comes after it, in any order
  -- and with any other subscribers: it has received, or has waiting, what was sent since it came, in
  -- its order, without what found its buffer full; the buffer never holds more than its size; and
  -- nothing is missing if no more was sent than the buffer has room for.
  pub run-IsServed :
      (steps : List (Step A)) (subs : List (Subscriber A))
      → find k subs ≡ none
      → All (λ x. leaves k x ≡ false) steps
      → (s' : Subscriber A) × (find k (run size (subscribe k ∷ steps) subs) ≡ some s')
        × IsServed size k steps (new_subscriber k) s'
  run-IsServed steps subs new stays =
      let (s', e, served) = run_one-IsServed steps (new_subscriber k) stays (omega arith) in
      (s', find-run size k (subscribe k ∷ steps) subs ∙ rw (new, eqb_refl k) e, served)
