-- ===== src/Recent/Refine.antt =====
-- The buffer of the most recent flow records (internal/flow/recent.go) against the list of all the
-- records.
use mathlib.Core.Bool.{true≢false}
use mathlib.Core.List.{reverse_aux}
use mitigador.Base.{
  ℕ, zero, suc, ◌-◌, ◌≤◌, ◌<◌, Bool, true, false, ◌||◌, some, List, [], ◌∷◌, reverse, if◌then◌else◌,
  eqb, leb, ltb, length, set, take, ◌≡◌, ◌⊎◌, inl, inr, refl, sym, subst, ap, ◌∙◌, arith,
  length-set, length-replicate, take-take, take_all, Bool-cases,
}
use mitigador.Recent.Window.{window, snapshot_loop-eq-window, take-window, window-push}
use mitigador.Recent.{
  RecentBuffer, new_recent_buffer, push, before, snapshot_loop, size, snapshot, push_all,
}

module _ {A : Type 0} (blank : A) where
  -- A buffer of `c` places holds the last of the records `h`, the newest first.
  pub record Holds (c : ℕ) (h : List A) (b : RecentBuffer A) : Type 0 where
    pub places : length b.ring ≡ c
    pub within : b.head < c
    pub few : b.full ≡ false → b.head ≡ length h
    pub many : b.full ≡ true → c ≤ length h
    pub last : window blank b.ring (before b.ring b.head) (size b) ≡ take c h

  -- All the records that stay after the next push, where the buffer is full and where it is not.
  Holds-full :
      (c : ℕ) (h : List A) (ring : List A) (head : ℕ)
      → Holds (suc c) h (record { ring = ring; head = head; full = true })
      → window blank ring (before ring head) c ≡ take c h
  Holds-full c h ring head holds =
      sym (take-window blank ring (before ring head) c (suc c) (omega arith))
      ∙ ap (take c) (ap (window blank ring (before ring head)) (sym holds.places) ∙ holds.last)
      ∙ take-take c (suc c) h (omega arith)

  Holds-few :
      (c : ℕ) (h : List A) (ring : List A) (head : ℕ)
      → Holds (suc c) h (record { ring = ring; head = head; full = false })
      → head ≤ c
      → window blank ring (before ring head) head ≡ take c h
  Holds-few c h ring head holds le =
      holds.last
      ∙ take_all (suc c) h (omega (arith, holds.few refl, le))
      ∙ sym (take_all c h (omega (arith, holds.few refl, le)))

  pushed :
      (c : ℕ) (h : List A) (ring : List A) (head : ℕ) (r : A) (n pos m : ℕ)
      → length ring ≡ suc c
      → head < suc c
      → n ≤ c
      → window blank ring (before ring head) n ≡ take c h
      → pos ≡ head
      → m ≡ suc n
      → window blank (set ring head r) pos m ≡ take (suc c) (r ∷ h)
  pushed c h ring head r n pos m hl hh hn rest e e' =
      rw (e, e') (window-push blank ring head r n (omega arith) (omega arith) ∙ ap (r ∷◌) rest)

  -- A push that comes to the end of the ring.
  wraps-Holds :
      (c : ℕ) (h : List A) (r : A) (ring : List A) (head n : ℕ)
      → length ring ≡ suc c
      → head ≡ c
      → n ≡ c
      → c ≤ length h
      → window blank ring (before ring head) n ≡ take c h
      → Holds (suc c) (r ∷ h) (record { ring = set ring head r; head = 0; full = true })
  wraps-Holds c h r ring head n places at same many rest = record {
    places = length-set ring head r ∙ places;
    within = omega arith;
    few = λ e. absurd (true≢false e);
    many = λ e. omega arith;
    last =
        pushed c h ring head r n _ _ places (omega arith) (omega arith) rest
          (omega (arith, length-set ring head r)) (omega (arith, length-set ring head r));
  }

  -- A push that does not.
  goes-Holds :
      (c : ℕ) (h : List A) (r : A) (ring : List A) (head : ℕ) (full : Bool) (n : ℕ)
      → Holds (suc c) h (record { ring = ring; head = head; full = full })
      → head < c
      → suc n ≡ size (record { ring = ring; head = suc head; full = full })
      → window blank ring (before ring head) n ≡ take c h
      → Holds (suc c) (r ∷ h) (record { ring = set ring head r; head = suc head; full = full })
  goes-Holds c h r ring head full n holds lt same rest = record {
    places = length-set ring head r ∙ holds.places;
    within = omega arith;
    few = λ e. omega (arith, holds.few e);
    many = λ e. omega (arith, holds.many e);
    last =
        pushed c h ring head r n _ _ holds.places (omega arith) (ground (arith, holds.places)) rest
          (ground arith) (ground (arith, length-set ring head r));
  }

  pushed-wraps :
      (c : ℕ) (h : List A) (r : A) (ring : List A) (head : ℕ) (full : Bool)
      → Holds (suc c) h (record { ring = ring; head = head; full = full })
      → head ≡ c
      → Holds (suc c) (r ∷ h) (record { ring = set ring head r; head = 0; full = true })
  pushed-wraps c h r ring head true holds at =
      wraps-Holds c h r ring head c holds.places at refl (omega (arith, holds.many refl))
        (Holds-full c h ring head holds)
  pushed-wraps c h r ring head false holds at =
      wraps-Holds c h r ring head head holds.places at at (omega (arith, holds.few refl))
        (Holds-few c h ring head holds (omega arith))

  pushed-goes :
      (c : ℕ) (h : List A) (r : A) (ring : List A) (head : ℕ) (full : Bool)
      → Holds (suc c) h (record { ring = ring; head = head; full = full })
      → head < c
      → Holds (suc c) (r ∷ h) (record { ring = set ring head r; head = suc head; full = full })
  pushed-goes c h r ring head true holds lt =
      goes-Holds c h r ring head true c holds lt (sym holds.places) (Holds-full c h ring head holds)
  pushed-goes c h r ring head false holds lt =
      goes-Holds c h r ring head false head holds lt refl
        (Holds-few c h ring head holds (omega arith))

  push-Holds :
      (c : ℕ) (h : List A) (r : A) (ring : List A) (head : ℕ) (full : Bool)
      → Holds (suc c) h (record { ring = ring; head = head; full = full })
      → (b : RecentBuffer A) × (push r (record { ring = ring; head = head; full = full }) ≡ some b)
        × Holds (suc c) (r ∷ h) b
  unfolding push
  push-Holds c h r ring head full holds = elim (Bool-cases (leb (length ring) (suc head))) [
    | inl wraps ↦ (
      record { ring = set ring head r; head = 0; full = true },
      ground (arith, holds.places, holds.within, wraps),
      pushed-wraps c h r ring head full holds (ground (arith, holds.places, holds.within, wraps)),
    )
    | inr goes ↦ (
      record { ring = set ring head r; head = suc head; full = full },
      ground (arith, holds.places, holds.within, goes),
      pushed-goes c h r ring head full holds (ground (arith, holds.places, holds.within, goes)),
    )
  ]

  abbrev clamped : ℕ → ℕ
  clamped capacity = if ltb capacity 1 then 1 else capacity

  new-Holds : (capacity : ℕ) → Holds (clamped capacity) [] (new_recent_buffer blank capacity)
  unfolding new_recent_buffer
  new-Holds capacity = record {
    places = length-replicate (clamped capacity) blank;
    within = ground arith;
    few = λ e. refl;
    many = λ e. absurd (true≢false (sym e));
    last = sym (take_all (clamped capacity) [] (omega arith));
  }

  push_all-Holds :
      (c : ℕ) (rs h : List A) (b : RecentBuffer A)
      → Holds (suc c) h b
      → (b' : RecentBuffer A) × (push_all rs b ≡ some b') × Holds (suc c) (reverse_aux rs h) b'
  unfolding push_all
  push_all-Holds c [] h b holds = (b, refl, holds)
  push_all-Holds c (r ∷ rs) h b holds =
      let (b', pushed', holds') = push-Holds c h r b.ring b.head b.full holds in
      let (b'', rest, holds'') = push_all-Holds c rs (r ∷ h) b' holds' in
      (b'', rw (pushed', rest, push_all) refl, holds'')

  -- The count that `Snapshot` is asked for, of a buffer of `c` places.
  abbrev asked : ℕ → ℕ → ℕ
  asked n c = if eqb n 0 || ltb c n then c else n

  snapshot-window :
      (n : ℕ) (b : RecentBuffer A)
      → before b.ring b.head < length b.ring
      → snapshot n b ≡ some (window blank b.ring (before b.ring b.head) (asked n (size b)))
  unfolding snapshot
  snapshot-window n b h = by_count (asked n (size b))
    where
      by_count :
          (m : ℕ)
          → (if eqb m 0 then some [] else snapshot_loop b.ring (before b.ring b.head) m)
            ≡ some (window blank b.ring (before b.ring b.head) m)
      by_count zero = refl
      by_count (suc m) =
          ground (arith, snapshot_loop-eq-window blank b.ring (before b.ring b.head) (suc m) h)

  take-asked :
      (n c : ℕ) (h : List A) (b : RecentBuffer A)
      → Holds c h b
      → take (asked n (size b)) h ≡ take (asked n c) h
  take-asked n c h b holds = by_full b.full refl
    where
      by_full : (f : Bool) → b.full ≡ f → take (asked n (size b)) h ≡ take (asked n c) h
      by_full true e = ap (λ m. take (asked n m) h) (ground (arith, e, holds.places))
      by_full false e = elim same_or_all [
        | inl same ↦ ap (λ m. take m h) same
        | inr (le, le') ↦ take_all (asked n (size b)) h le ∙ sym (take_all (asked n c) h le')
      ]
        where
          same_or_all :
              (asked n (size b) ≡ asked n c)
              ⊎ ((length h ≤ asked n (size b)) × (length h ≤ asked n c))
          same_or_all = ground (arith, e, holds.few e, holds.within)

  snapshot-Holds :
      (n c : ℕ) (h : List A) (b : RecentBuffer A)
      → Holds c h b
      → snapshot n b ≡ some (take (asked n c) h)
  snapshot-Holds n c h b holds =
      snapshot-window n b (ground (arith, holds.places, holds.within))
      ∙ ap some (
          sym (
            take-window blank b.ring (before b.ring b.head) (asked n (size b)) (size b)
              (ground arith))
          ∙ ap (take (asked n (size b))) holds.last
          ∙ take-take (asked n (size b)) c h (ground (arith, holds.places, holds.within))
          ∙ take-asked n c h b holds)

  -- Whatever the capacity and the records, none of the pushes reads or writes out of range; and a
  -- snapshot of any size then returns, the newest first, as many of the last records as it is asked
  -- for, but no more than the buffer's capacity, which is at least 1: all those that it keeps if it
  -- is asked for none.
  pub snapshot-push_all :
      (capacity n : ℕ) (rs : List A)
      → (b : RecentBuffer A) × (push_all rs (new_recent_buffer blank capacity) ≡ some b)
        × (snapshot n b ≡ some (take (asked n (clamped capacity)) (reverse rs)))
  snapshot-push_all capacity n rs =
      let (b, pushed', holds) = push_all-Holds (clamped capacity - 1) rs [] _ at_first in
      (
        b,
        pushed',
        snapshot-Holds n (clamped capacity) (reverse rs) b
            (subst (λ c. Holds c (reverse rs) b) (sym some_place) holds),
      )
    where
      some_place : clamped capacity ≡ suc (clamped capacity - 1)
      some_place = ground arith

      at_first : Holds (suc (clamped capacity - 1)) [] (new_recent_buffer blank capacity)
      at_first =
          subst (λ c. Holds c [] (new_recent_buffer blank capacity)) some_place (new-Holds capacity)
