-- ===== src/Aggregate/Window.antt =====
-- The ring of a host (internal/aggregate/store.go) against the sums of its records by second.
use mathlib.Core.Path.{ap₂}
use mitigador.Base.{
  ℕ, zero, suc, ◌+◌, ◌-◌, ◌%◌, ◌≤◌, ◌<◌, true, false, List, [], ◌∷◌, if◌then◌else◌, eqb, ltb,
  length, set, get_or, ◌≡◌, ◌≢◌, ◌⊎◌, inl, inr, refl, sym, ap, ◌∙◌, arith, length-set,
  get_or-set_self, get_or-set_ne, eqb-cases, eqb_refl, get_or-replicate,
}
use mitigador.Aggregate.{
  FlowRecord, Bucket, empty_bucket, HostRing, new_ring, window_size, slot, account, update_ring,
  tick_ring, snapshot_from, snapshot_ring,
}

-- What happens to the ring of one host: a record is counted in a second, or a second is ticked.
pub data Op : Type 0 where
  counts : ℕ → FlowRecord → Op
  ticks : Op

-- The second of the last tick before, and the operations.
unfoldable pub run_ring : ℕ → List Op → HostRing → ℕ × HostRing
unfolding update_ring tick_ring
run_ring now [] hr = (now, hr)
run_ring now (counts sec r ∷ ops) hr = run_ring now ops (update_ring sec r hr)
run_ring now (ticks ∷ ops) hr = run_ring (suc now) ops (tick_ring (suc now) hr)

-- A record is counted after the tick of the second before its own, and within less than a minute.
abbrev pub Timely : ℕ → List Op → Type 0
Timely now [] = Unit
Timely now (counts sec r ∷ ops) = (sec ≤ now + 1) × (now + 1 < sec + window_size) × Timely now ops
Timely now (ticks ∷ ops) = Timely (suc now) ops

-- The counters of all the records of one second, from those that are given.
abbrev pub total : ℕ → List Op → Bucket → Bucket
total s [] b = b
total s (counts sec r ∷ ops) b = total s ops (if eqb sec s then account r b else b)
total s (ticks ∷ ops) b = total s ops b

slot_ne :
    (now s s' : ℕ) → s ≤ now → now < s + 60 → s' ≤ now → now < s' + 60 → s ≢ s' → slot s ≢ slot s'
slot_ne now s s' h1 h2 h3 h4 n e = n (omega (arith, e, h1, h2, h3, h4))

slot_lt : (s : ℕ) → slot s < 60
slot_lt s = omega arith

-- After the tick of `now`, the ring has the sums `f` of the last minute, up to the second after.
record Covers (now : ℕ) (f : ℕ → Bucket) (hr : HostRing) : Type 0 where
  slots : length hr.buckets ≡ 60
  sums : (s : ℕ) → s ≤ now + 1 → now + 1 < s + 60 → get_or hr.buckets (slot s) empty_bucket ≡ f s
  future : (s : ℕ) → now + 1 < s → f s ≡ empty_bucket

counted : ℕ → FlowRecord → (ℕ → Bucket) → ℕ → Bucket
counted sec r f s = if eqb sec s then account r (f s) else f s

update-Covers :
    (now sec : ℕ) (r : FlowRecord) (f : ℕ → Bucket) (hr : HostRing)
    → Covers now f hr
    → sec ≤ now + 1
    → now + 1 < sec + 60
    → Covers now (counted sec r f) (update_ring sec r hr)
unfolding update_ring counted
update-Covers now sec r f hr covers h h' = record {
  slots = length-set hr.buckets (slot sec) _ ∙ covers.slots;
  sums = λ s k k'. at_second s k k' (eqb-cases sec s);
  future = λ s k. ground (arith, covers.future s k);
}
  where
    at_second :
        (s : ℕ)
        → s ≤ now + 1
        → now + 1 < s + 60
        → ((eqb sec s ≡ true) × (sec ≡ s)) ⊎ ((eqb sec s ≡ false) × (sec ≢ s))
        → get_or
            (set hr.buckets (slot sec) (account r (get_or hr.buckets (slot sec) empty_bucket)))
            (slot s)
            empty_bucket
          ≡ (if eqb sec s then account r (f s) else f s)
    at_second s k k' (inl (same, e)) =
        rw (e, eqb_refl s)
          (get_or-set_self hr.buckets (slot s) _ empty_bucket
              (omega (arith, slot_lt s, covers.slots))
            ∙ ap (account r) (covers.sums s k k'))
    at_second s k k' (inr (other, ne)) = rw other (
        get_or-set_ne hr.buckets (slot sec) (slot s) _ empty_bucket
          (slot_ne (now + 1) s sec k k' h h' (λ e. ne (sym e)))
        ∙ covers.sums s k k')

tick-Covers :
    (now : ℕ) (f : ℕ → Bucket) (hr : HostRing)
    → Covers now f hr
    → Covers (suc now) f (tick_ring (suc now) hr)
unfolding tick_ring
tick-Covers now f hr covers = record {
  slots = length-set hr.buckets (slot (suc now + 1)) _ ∙ covers.slots;
  sums = λ s k k'. at_second s k k' (eqb-cases s (suc now + 1));
  future = λ s k. covers.future s (omega arith);
}
  where
    at_second :
        (s : ℕ)
        → s ≤ suc now + 1
        → suc now + 1 < s + 60
        → ((eqb s (suc now + 1) ≡ true) × (s ≡ suc now + 1))
          ⊎ ((eqb s (suc now + 1) ≡ false) × (s ≢ suc now + 1))
        → get_or (set hr.buckets (slot (suc now + 1)) empty_bucket) (slot s) empty_bucket ≡ f s
    at_second s k k' (inl (_, e)) = rw e (
        get_or-set_self hr.buckets (slot (suc now + 1)) _ empty_bucket
          (omega (arith, slot_lt (suc now + 1), covers.slots))
        ∙ sym (covers.future (suc now + 1) (omega arith)))
    at_second s k k' (inr (_, ne)) =
        get_or-set_ne hr.buckets (slot (suc now + 1)) (slot s) _ empty_bucket
          (slot_ne (suc now + 1) s (suc now + 1) k k' (omega arith) (omega arith) ne)
        ∙ covers.sums s (omega arith) (omega arith)

run_ring-Covers :
    (ops : List Op) (now : ℕ) (f : ℕ → Bucket) (hr : HostRing)
    → Covers now f hr
    → Timely now ops
    → let (now', hr') = run_ring now ops hr in Covers now' (λ s. total s ops (f s)) hr'
unfolding run_ring counted
run_ring-Covers [] now f hr covers timely = covers
run_ring-Covers (counts sec r ∷ ops) now f hr covers (h, h', timely) =
    run_ring-Covers ops now (counted sec r f) (update_ring sec r hr)
      (update-Covers now sec r f hr covers h h') timely
run_ring-Covers (ticks ∷ ops) now f hr covers timely =
    run_ring-Covers ops (suc now) f (tick_ring (suc now) hr) (tick-Covers now f hr covers) timely

new-Covers : (now : ℕ) → Covers now (λ s. empty_bucket) new_ring
new-Covers now = record {
  slots = refl;
  sums = λ s k k'. get_or-replicate 60 (slot s) empty_bucket;
  future = λ s k. refl;
}

-- The second whose sums a bucket of a snapshot shows: its last one of sixty shows those of the
-- second after `now`.
abbrev pub shown_second : ℕ → ℕ → ℕ
shown_second now i = if eqb i 59 then now + 1 else now - i

-- The buckets from an index on, from the sums.
abbrev pub sums_from : (ℕ → Bucket) → ℕ → ℕ → ℕ → List Bucket
sums_from f now i zero = []
sums_from f now i (suc n) = f (shown_second now i) ∷ sums_from f now (suc i) n

snapshot_from-Covers :
    (now : ℕ) (f : ℕ → Bucket) (hr : HostRing) (i n : ℕ)
    → Covers now f hr
    → 59 ≤ now
    → i + n ≤ 60
    → snapshot_from now i n hr ≡ sums_from f now i n
unfolding snapshot_from
snapshot_from-Covers now f hr i zero covers h k = refl
snapshot_from-Covers now f hr i (suc n) covers h k =
    ap₂ ◌∷◌ (shown (eqb-cases i 59))
      (snapshot_from-Covers now f hr (suc i) n covers h (omega arith))
  where
    shown :
        ((eqb i 59 ≡ true) × (i ≡ 59)) ⊎ ((eqb i 59 ≡ false) × (i ≢ 59))
        → get_or hr.buckets ((now + window_size - i) % window_size) empty_bucket
          ≡ f (shown_second now i)
    shown (inl (same, e)) = rw same (
        ap (λ j. get_or hr.buckets j empty_bucket) {x = (now + window_size - i) % window_size}
          {y = slot (now + 1)} (omega (arith, e))
        ∙ covers.sums (now + 1) (omega arith) (omega arith))
    shown (inr (other, ne)) = rw other (
        ap (λ j. get_or hr.buckets j empty_bucket) {x = (now + window_size - i) % window_size}
          {y = slot (now - i)} (omega (arith, h, k, ne))
        ∙ covers.sums (now - i) (omega (arith, h, k, ne)) (omega (arith, h, k, ne)))

run_ring-le : (ops : List Op) (now : ℕ) (hr : HostRing) → now ≤ (run_ring now ops hr).0
unfolding run_ring
run_ring-le [] now hr = omega arith
run_ring-le (counts sec r ∷ ops) now hr = run_ring-le ops now (update_ring sec r hr)
run_ring-le (ticks ∷ ops) now hr = omega (arith, run_ring-le ops (suc now) (tick_ring (suc now) hr))

-- If every second is ticked in turn and each record is counted after the tick of the second before
-- its own and less than a minute late, then, from a new ring on and at least a minute after 1970,
-- each bucket of a snapshot has the sums, modulo 2 ^ 64, of exactly the records of its second; but
-- the sixtieth bucket, if the window has so many, has those of the second to come.
pub snapshot_ring-run_ring :
    (now : ℕ) (ops : List Op) (window : ℕ)
    → 59 ≤ now
    → Timely now ops
    → let (now', hr) = run_ring now ops new_ring in
      snapshot_ring now' window hr
      ≡ sums_from
          (λ s. total s ops empty_bucket)
          now'
          0
          (if ltb window_size window then window_size else window)
unfolding snapshot_ring
snapshot_ring-run_ring now ops window h timely =
    snapshot_from-Covers (run_ring now ops new_ring).0 (λ s. total s ops empty_bucket)
      (run_ring now ops new_ring).1 0 (if ltb window_size window then window_size else window)
      (run_ring-Covers ops now (λ s. empty_bucket) new_ring (new-Covers now) timely)
      (omega (arith, run_ring-le ops now new_ring)) (ground arith)
