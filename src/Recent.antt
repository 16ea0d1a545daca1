-- ===== src/Recent.antt =====
-- The buffer of the most recent flow records (internal/flow/recent.go), for any type of records and
-- its zero value. An index out of range, which panics, is `none`.
pub mod Window
pub mod Refine
use mitigador.Base.{
  ℕ, zero, suc, ◌+◌, ◌-◌, Bool, true, false, ◌||◌, Option, none, some, List, [], ◌∷◌, if◌then◌else◌,
  eqb, leb, ltb, length, set, replicate, get_elem?,
}

pub record RecentBuffer (A : Type 0) : Type 0 where
  pub ring : List A
  pub head : ℕ
  pub full : Bool

module _ {A : Type 0} (blank : A) where
  -- A capacity below 1, a negative one too, is 0 here.
  unfoldable pub new_recent_buffer : ℕ → RecentBuffer A
  new_recent_buffer capacity =
      let capacity' = if ltb capacity 1 then 1 else capacity in
      record { ring = replicate capacity' blank; head = 0; full = false }

module _ {A : Type 0} where
  unfoldable pub push : A → RecentBuffer A → Option (RecentBuffer A)
  push r b =
      if ltb b.head (length b.ring)
      then some (
          if leb (length b.ring) (b.head + 1)
          then record { ring = set b.ring b.head r; head = 0; full = true }
          else record b { ring = set b.ring b.head r; head = b.head + 1 })
      else none

  -- The position before one, round the ring.
  abbrev pub before : List A → ℕ → ℕ
  before ring pos = if eqb pos 0 then length ring - 1 else pos - 1

  -- The loop of `Snapshot`, with as many turns left.
  unfoldable pub snapshot_loop : List A → ℕ → ℕ → Option (List A)
  snapshot_loop ring pos zero = some []
  snapshot_loop ring pos (suc n) =
      let rest = snapshot_loop ring (before ring pos) n in
      elim (get_elem? ring pos) [
        | none ↦ none
        | some r ↦ elim rest [ none ↦ none | some rs ↦ some (r ∷ rs) ]
      ]

  abbrev pub size : RecentBuffer A → ℕ
  size b = if b.full then length b.ring else b.head

  -- A count below 1, a negative one too, is 0 here.
  unfoldable pub snapshot : ℕ → RecentBuffer A → Option (List A)
  unfolding snapshot_loop
  snapshot n b =
      let n' = if eqb n 0 || ltb (size b) n then size b else n in
      if eqb n' 0 then some [] else snapshot_loop b.ring (before b.ring b.head) n'

  -- Records pushed one after the other.
  unfoldable pub push_all : List A → RecentBuffer A → Option (RecentBuffer A)
  unfolding push
  push_all [] b = some b
  push_all (r ∷ rs) b = elim (push r b) [ none ↦ none | some b' ↦ push_all rs b' ]
