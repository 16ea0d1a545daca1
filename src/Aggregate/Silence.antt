-- ===== src/Aggregate/Silence.antt =====
-- A host of which nothing is counted (internal/aggregate/store.go).
use mathlib.Core.Bool.{true≢false}
use mathlib.Core.Option.{none-ne-some, some-injective}
use mitigador.Base.{
  ℕ, zero, suc, ◌+◌, ◌-◌, ◌%◌, true, false, some, List, [], ◌∷◌, All, if◌then◌else◌, ltb, ◌≡◌, inl,
  inr, refl, sym, subst, ◌∙◌, Bool-cases, Option-cases, set, get_or,
}
use mitigador.Aggregate.Addresses.{same_addr-eq}
use mitigador.Aggregate.{
  Addr, same_addr, Bucket, empty_bucket, FlowRecord, Host, HostRing, window_size, slot, tick,
  tick_ring, update, snapshot, snapshot_ring, snapshot_from, find_host,
}

-- Nothing is counted in the ring of a host.
abbrev pub AllEmpty : List Bucket → Type 0
AllEmpty bs = All (λ b. b ≡ empty_bucket) bs

-- Nothing is counted for the host, which may also be unknown.
abbrev pub IsSilent : Addr → List Host → Type 0
IsSilent ip hosts = All (λ h. same_addr h.ip ip ≡ true → AllEmpty h.ring.buckets) hosts

set-AllEmpty : (bs : List Bucket) (i : ℕ) → AllEmpty bs → AllEmpty (set bs i empty_bucket)
set-AllEmpty [] i all = tt
set-AllEmpty (b ∷ bs) zero (e, all) = (refl, all)
set-AllEmpty (b ∷ bs) (suc i) (e, all) = (e, set-AllEmpty bs i all)

pub tick-IsSilent :
    (now : ℕ) (ip : Addr) (hosts : List Host) → IsSilent ip hosts → IsSilent ip (tick now hosts)
unfolding tick tick_ring
tick-IsSilent now ip [] all = tt
tick-IsSilent now ip (h ∷ hosts) (e, all) =
    elim (Bool-cases (ltb window_size (now - h.ring.last_sec))) [
      | inl cold ↦ rw (cold, All) (tick-IsSilent now ip hosts all)
      | inr warm ↦
          rw (warm, All)
            (
              (λ same. set-AllEmpty h.ring.buckets (slot (now + 1)) (e same)),
              tick-IsSilent now ip hosts all,
            )
    ]

pub update-IsSilent :
    (ip ip' : Addr) (sec : ℕ) (r : FlowRecord) (hosts : List Host)
    → same_addr ip' ip ≡ false
    → IsSilent ip hosts
    → IsSilent ip (update ip' sec r hosts)
unfolding update
update-IsSilent ip ip' sec r [] other all = ((λ same. absurd (true≢false (sym same ∙ other))), tt)
update-IsSilent ip ip' sec r (h ∷ hosts) other (e, all) = elim (Bool-cases (same_addr h.ip ip')) [
  | inl found ↦
      rw (found, All)
        ((λ same. absurd (true≢false (sym same ∙ rw (same_addr-eq h.ip ip' found) other))), all)
  | inr not_this ↦ rw (not_this, All) (e, update-IsSilent ip ip' sec r hosts other all)
]

get_or-AllEmpty : (bs : List Bucket) (i : ℕ) → AllEmpty bs → get_or bs i empty_bucket ≡ empty_bucket
get_or-AllEmpty [] i all = refl
get_or-AllEmpty (b ∷ bs) zero (e, all) = e
get_or-AllEmpty (b ∷ bs) (suc i) (e, all) = get_or-AllEmpty bs i all

snapshot_from-AllEmpty :
    (now i n : ℕ) (hr : HostRing) → AllEmpty hr.buckets → AllEmpty (snapshot_from now i n hr)
unfolding snapshot_from
snapshot_from-AllEmpty now i zero hr all = tt
snapshot_from-AllEmpty now i (suc n) hr all = (
  get_or-AllEmpty hr.buckets ((now + window_size - i) % window_size) all,
  snapshot_from-AllEmpty now (suc i) n hr all,
)

find_host-IsSilent :
    (ip : Addr) (hosts : List Host) (hr : HostRing)
    → IsSilent ip hosts
    → find_host ip hosts ≡ some hr
    → AllEmpty hr.buckets
unfolding find_host
find_host-IsSilent ip [] hr all h = absurd (none-ne-some hr h)
find_host-IsSilent ip (x ∷ hosts) hr (e, all) h = elim (Bool-cases (same_addr x.ip ip)) [
  | inl same ↦ subst (λ r. AllEmpty r.buckets) (some-injective x.ring hr (rw same at h)) (e same)
  | inr other ↦ find_host-IsSilent ip hosts hr all (rw other at h)
]

pub snapshot-IsSilent :
    (ip : Addr) (now window : ℕ) (hosts : List Host)
    → IsSilent ip hosts
    → AllEmpty (snapshot ip now window hosts)
unfolding snapshot snapshot_ring
snapshot-IsSilent ip now window hosts all = elim (Bool-cases (ltb window 1)) [
  | inl low ↦ rw (low, All) tt
  | inr wide ↦ elim (Option-cases (find_host ip hosts)) [
    | inl unknown ↦ rw (wide, unknown, All) tt
    | inr (hr, found) ↦
        rw (wide, found)
          (snapshot_from-AllEmpty now 0 (if ltb window_size window then window_size else window) hr
            (find_host-IsSilent ip hosts hr all found))
  ]
]
