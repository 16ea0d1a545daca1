-- ===== src/Detect/Engine/Silence.antt =====
-- What the engine does about a host without traffic (internal/detect/engine.go,
-- internal/detect/classify.go).
use mathlib.Core.Bool.{true≢false}
use mitigador.Base.{
  ℕ, ◌/◌, String, Bool, true, false, ◌||◌, Option, none, some, List, [], ◌∷◌, ◌++◌, eqb, ltb, ◌≡◌,
  inl, inr, refl, sym, subst, ◌∙◌, arith, Bool-cases, Option-cases, length,
}
use mitigador.Aggregate.{Addr, same_addr, Bucket, empty_bucket, tick, update}
use mitigador.Aggregate.Addresses.{same_addr-eq}
use mitigador.Aggregate.Silence.{
  AllEmpty, IsSilent, tick-IsSilent, update-IsSilent, snapshot-IsSilent,
}
use mitigador.Detect.{AttackEvent, Threshold}
use mitigador.Detect.Machine.{Key, MachineEntry, second}
use mitigador.Detect.Catalog.{lookup_by_vector, lookup}
use mitigador.Detect.Engine.Observe.{skips, observe-skipped, observe-unruled, observe-judged}
use mitigador.Detect.Engine.{
  Engine, recorded, and_then, judge, observe, emit, eval_host, eval_hosts, tick_engine, sum_of,
  is_empty, buckets_of, classify, run_engine, rest_of, Op, counts, ticks, takes, snapshot_window,
  averaged,
}

sum_of-AllEmpty :
    (f : Bucket → ℕ) (bs : List Bucket) → f empty_bucket ≡ 0 → AllEmpty bs → sum_of f bs ≡ 0
sum_of-AllEmpty f [] z all = refl
sum_of-AllEmpty f (b ∷ bs) z (e, all) = rw (e, z, sum_of-AllEmpty f bs z all) refl

classify-AllEmpty : (bs : List Bucket) → AllEmpty bs → classify bs ≡ ""
unfolding classify
classify-AllEmpty bs all = rw (sum_of-AllEmpty (λ b. b.pps) bs refl all) refl

abbrev pub key : Addr → String → Key
key ip v = record { host_ip = ip; vector = v }

or_true : (a b : Bool) → (a || b || true) ≡ true
or_true a b = ground arith

module _ {R : Type 0} (new_ulid : ℕ → R → String × R) (confidence : ℕ → ℕ → Threshold → ℕ → ℕ) where
  -- An outcome, unless it is a panic, leaves the hosts' counters and all the entries of a host.
  abbrev Leaves : {A : Type 0} → Addr → Engine R → Option (A × Engine R) → Type 0
  Leaves ip e none = Unit
  Leaves ip e (some (_, e')) =
      (e'.store ≡ e.store) × ((v : String) → e'.entries (key ip v) ≡ e.entries (key ip v))

  recorded-Leaves :
      (ip : Addr) (k : Key) (streak : ℕ) (e : Engine R)
      (out : Option (Option AttackEvent × MachineEntry × R))
      → same_addr ip k.host_ip ≡ false
      → Leaves ip e (recorded k streak e out)
  recorded-Leaves ip k streak e none other = tt
  recorded-Leaves ip k streak e (some (ev, entry, rnd)) other = (refl, λ v. rw other refl)

  judge-Leaves :
      (ip : Addr) (k : Key) (now : ℕ) (buckets : List Bucket) (t : Threshold) (e : Engine R)
      → same_addr ip k.host_ip ≡ false
      → Leaves ip e (judge new_ulid confidence k now buckets t e)
  unfolding judge
  judge-Leaves ip k now buckets t e other = elim (Bool-cases (eqb (averaged t buckets) 0)) [
    | inl by_zero ↦ rw (by_zero, Leaves) tt
    | inr some_left ↦ rw some_left (recorded-Leaves ip k _ e _ other)
  ]

  same-Leaves : (ip : Addr) (e : Engine R) (ev : Option AttackEvent) → Leaves ip e (some (ev, e))
  same-Leaves ip e ev = (refl, λ v. refl)

  silent-skips :
      (ip : Addr) (sec : ℕ) (e : Engine R)
      → IsSilent ip e.store
      → skips new_ulid confidence ip sec e ≡ true
  silent-skips ip sec e silent =
      rw
        (classify-AllEmpty (buckets_of new_ulid confidence ip sec e)
          (snapshot-IsSilent ip sec (snapshot_window (lookup ip e.catalog)) e.store silent))
        (or_true (is_empty (lookup ip e.catalog))
          (is_empty (buckets_of new_ulid confidence ip sec e)))

  observe-Leaves :
      (ip ip' : Addr) (sec now : ℕ) (e : Engine R)
      → IsSilent ip e.store
      → Leaves ip e (observe new_ulid confidence ip' sec now e)
  observe-Leaves ip ip' sec now e silent = elim (Bool-cases (skips new_ulid confidence ip' sec e)) [
    | inl skipped ↦
        subst (Leaves ip e) (sym (observe-skipped new_ulid confidence ip' sec now e skipped))
          (same-Leaves ip e none)
    | inr on ↦
        elim (Option-cases
          (lookup_by_vector ip' (classify (buckets_of new_ulid confidence ip' sec e)) e.catalog)) [
            | inl unruled ↦
                subst (Leaves ip e)
                  (sym (observe-unruled new_ulid confidence ip' sec now e on unruled))
                  (same-Leaves ip e none)
            | inr (t, ruled) ↦
                subst (Leaves ip e)
                  (sym (observe-judged new_ulid confidence ip' sec now e t on ruled))
                  (judge-Leaves ip _ now _ t e (other on))
          ]
  ]
    where
      other : skips new_ulid confidence ip' sec e ≡ false → same_addr ip ip' ≡ false
      other on = elim (Bool-cases (same_addr ip ip')) [
        | inr apart ↦ apart
        | inl same ↦ absurd (
            true≢false (
              sym (
                silent-skips ip' sec e
                  (subst (λ x. IsSilent x e.store) (same_addr-eq ip ip' same) silent))
              ∙ on))
      ]

  emitted-Leaves :
      (capacity : ℕ) (ip : Addr) (e : Engine R) (out : Option (Option AttackEvent × Engine R))
      → Leaves ip e out
      → Leaves ip e (elim out [ none ↦ none | some (ev, e') ↦ some (ev, emit capacity ev e') ])
  unfolding emit
  emitted-Leaves capacity ip e none h = tt
  emitted-Leaves capacity ip e (some (none, e')) h = h
  emitted-Leaves capacity ip e (some (some a, e')) h =
      elim (Bool-cases (ltb (length e'.out) capacity)) [
        | inl room ↦ rw room h
        | inr full ↦ rw full h
      ]

  -- Two outcomes one after the other.
  chained-Leaves :
      {B : Type 0} {C : Type 0} (ip : Addr) (e e' : Engine R) (out : Option (B × Engine R))
      (f : B → C)
      → (e'.store ≡ e.store) × ((v : String) → e'.entries (key ip v) ≡ e.entries (key ip v))
      → Leaves ip e' out
      → Leaves ip e (elim out [ none ↦ none | some (b, e'') ↦ some (f b, e'') ])
  chained-Leaves ip e e' none f first h = tt
  chained-Leaves ip e e' (some (b, e'')) f first h = (h.0 ∙ first.0, λ v. h.1 v ∙ first.1 v)

  eval_hosts-Leaves :
      (capacity : ℕ) (ip : Addr) (ips : List Addr) (sec now : ℕ) (e : Engine R)
      → IsSilent ip e.store
      → Leaves ip e (eval_hosts new_ulid confidence capacity ips sec now e)
  unfolding eval_hosts eval_host
  eval_hosts-Leaves capacity ip [] sec now e silent = (refl, λ v. refl)
  eval_hosts-Leaves capacity ip (ip' ∷ ips) sec now e silent =
      by_first (eval_host new_ulid confidence capacity ip' sec now e)
        (emitted-Leaves capacity ip e (observe new_ulid confidence ip' sec now e)
          (observe-Leaves ip ip' sec now e silent))
        (λ e'. eval_hosts-Leaves capacity ip ips sec now e')
    where
      by_first :
          (out : Option (Option AttackEvent × Engine R))
          → Leaves ip e out
          → ((e' : Engine R)
              → IsSilent ip e'.store
              → Leaves ip e' (eval_hosts new_ulid confidence capacity ips sec now e'))
          → Leaves ip e (elim out [
            | none ↦ none
            | some (ev, e') ↦ elim (eval_hosts new_ulid confidence capacity ips sec now e') [
              | none ↦ none
              | some (evs, e'') ↦ some (and_then ev evs, e'')
            ]
          ])
      by_first none h rest = tt
      by_first (some (ev, e')) h rest =
          chained-Leaves ip e e' _ (and_then ev) h (rest e' (subst (IsSilent ip) (sym h.0) silent))

-- No record of the host is counted.
abbrev pub NoTraffic : Addr → List Op → Type 0
NoTraffic ip [] = Unit
NoTraffic ip (counts ip' sec r ∷ ops) = (same_addr ip' ip ≡ false) × NoTraffic ip ops
NoTraffic ip (ticks now ∷ ops) = NoTraffic ip ops
NoTraffic ip (takes ∷ ops) = NoTraffic ip ops

module _ {R : Type 0} (new_ulid : ℕ → R → String × R) (confidence : ℕ → ℕ → Threshold → ℕ → ℕ) where
  -- An outcome, unless it is a panic, leaves all the entries of a host.
  abbrev LeavesEntries : {A : Type 0} → Addr → Engine R → Option (A × Engine R) → Type 0
  LeavesEntries ip e none = Unit
  LeavesEntries ip e (some (_, e')) = (v : String) → e'.entries (key ip v) ≡ e.entries (key ip v)

  run_engine-Leaves :
      (capacity : ℕ) (ip : Addr) (ops : List Op) (e : Engine R)
      → IsSilent ip e.store
      → NoTraffic ip ops
      → LeavesEntries ip e (run_engine new_ulid confidence capacity ops e)
  unfolding run_engine tick_engine
  run_engine-Leaves capacity ip [] e silent quiet = λ v. refl
  run_engine-Leaves capacity ip (counts ip' sec r ∷ ops) e silent (other, quiet) =
      run_engine-Leaves capacity ip ops (record e { store = update ip' sec r e.store })
        (update-IsSilent ip ip' sec r e.store other silent) quiet
  run_engine-Leaves capacity ip (takes ∷ ops) e silent quiet =
      run_engine-Leaves capacity ip ops (record e { out = rest_of e.out }) silent quiet
  run_engine-Leaves capacity ip (ticks now ∷ ops) e silent quiet =
      by_tick (tick_engine new_ulid confidence capacity now e)
        (eval_hosts-Leaves new_ulid confidence capacity ip _ _ now
          (record e { store = tick (now / second) e.store })
          (tick-IsSilent (now / second) ip e.store silent))
        (λ e' silent'. run_engine-Leaves capacity ip ops e' silent' quiet)
    where
      by_tick :
          (out : Option (List AttackEvent × Engine R))
          → Leaves new_ulid confidence ip (record e { store = tick (now / second) e.store }) out
          → ((e' : Engine R)
              → IsSilent ip e'.store
              → LeavesEntries ip e' (run_engine new_ulid confidence capacity ops e'))
          → LeavesEntries ip e (elim out [
            | none ↦ none
            | some (evs, e') ↦ elim (run_engine new_ulid confidence capacity ops e') [
              | none ↦ none
              | some (evs', e'') ↦ some (evs ++ evs', e'')
            ]
          ])
      by_tick none h rest = tt
      by_tick (some (evs, e')) h rest =
          after (run_engine new_ulid confidence capacity ops e') (
            rest e'
              (subst (IsSilent ip) (sym h.0) (tick-IsSilent (now / second) ip e.store silent)))
        where
          after :
              (out : Option (List AttackEvent × Engine R))
              → LeavesEntries ip e' out
              → LeavesEntries ip e
                  (elim out [ none ↦ none | some (evs', e'') ↦ some (evs ++ evs', e'') ])
          after none h' = tt
          after (some (evs', e'')) h' = λ v. h' v ∙ h.1 v

  -- Once nothing is counted for a host in its minute, no number of ticks changes what the engine
  -- keeps of its attacks, as long as no record of it comes in: an attack that is active stays so,
  -- with the same incident, and is not ended.
  pub run_engine-silent :
      (capacity : ℕ) (ip : Addr) (v : String) (ops : List Op) (e : Engine R)
      (evs : List AttackEvent) (e' : Engine R)
      → IsSilent ip e.store
      → NoTraffic ip ops
      → run_engine new_ulid confidence capacity ops e ≡ some (evs, e')
      → e'.entries (key ip v) ≡ e.entries (key ip v)
  run_engine-silent capacity ip v ops e evs e' silent quiet ran =
      subst (LeavesEntries ip e) ran (run_engine-Leaves capacity ip ops e silent quiet) v
