-- ===== src/Detect/Engine/Contract.antt =====
-- The events that the engine raises (internal/detect/engine.go) keep the contract of each host and
-- vector, and no tick panics.
use mitigador.Base.{
  ℕ, ◌/◌, ◌≤◌, String, false, Option, none, some, List, [], ◌∷◌, ◌++◌, All, eqb, ltb, ◌≡◌, inl, inr,
  refl, sym, subst, ◌∙◌, arith, Bool-cases, Option-cases, length,
}
use mitigador.Aggregate.{Addr, Bucket, tick, active_hosts}
use mitigador.Detect.{AttackEvent, Threshold}
use mitigador.Detect.Machine.{Key, second}
use mitigador.Detect.Machine.Contract.{quiet, Admits, at_rest, step-Fits}
use mitigador.Detect.Catalog.{lookup_by_vector}
use mitigador.Detect.Engine.{
  Engine, new_engine, put, averaged, input_of, judge, observe, emit, eval_host, eval_hosts,
  tick_engine, run_engine, is_empty, buckets_of, classify, Op, counts, ticks, takes, and_then,
}
use mitigador.Detect.Engine.Phases.{
  events_of, Phases, AllStand, AllAdmit, Stands-le, and_then-AllAdmit, AllStand-put,
}
use mitigador.Detect.Engine.Observe.{
  HasWindow, averaged-ne-zero, lookup_by_vector-Has, not-empty, skips, observe-skipped,
  observe-unruled, observe-judged,
}

-- The ticks of the operations go forward from an instant on.
abbrev pub Forward : ℕ → List Op → Type 0
Forward now [] = Unit
Forward now (counts ip sec r ∷ ops) = Forward now ops
Forward now (takes ∷ ops) = Forward now ops
Forward now (ticks now' ∷ ops) = (now ≤ now') × Forward now' ops

module _ {R : Type 0} (new_ulid : ℕ → R → String × R) (confidence : ℕ → ℕ → Threshold → ℕ → ℕ) where
  -- Some events are raised that the phases allow, and the engine stands for the phases after them.
  abbrev Goes : Phases → ℕ → Engine R → Option (Option AttackEvent × Engine R) → Type 0
  Goes ps now e out =
      (ev : Option AttackEvent) × (e' : Engine R) × (ps' : Phases) × (out ≡ some (ev, e'))
      × ((e'.catalog ≡ e.catalog)
          × AllStand now ps' e'.entries
          × ((evs : List AttackEvent) → AllAdmit ps' evs → AllAdmit ps (and_then ev evs)))

  judge-Goes :
      (k : Key) (now now' : ℕ) (buckets : List Bucket) (t : Threshold) (e : Engine R) (ps : Phases)
      → HasWindow t
      → is_empty buckets ≡ false
      → now ≤ now'
      → AllStand now ps e.entries
      → Goes ps now' e (judge new_ulid confidence k now' buckets t e)
  unfolding judge
  judge-Goes k now now' buckets t e ps has full le all =
      let (ev, entry, rnd, stepped, (q, moves, stands)) =
        step-Fits new_ulid k (input_of new_ulid confidence now' buckets t (e.streak k)) t (ps k)
          (e.entries k) e.rnd (all k) le in
      (
        ev,
        record e {
          entries = put k entry e.entries;
          rnd = rnd;
          streak =
              put k (input_of new_ulid confidence now' buckets t (e.streak k)).duration_violated
                e.streak;
        },
        put k q ps,
        rw (some_averaged, stepped) refl,
        (
          refl,
          AllStand-put now now' k q ps entry e.entries le all stands,
          λ evs adm. and_then-AllAdmit k q ps ev evs moves adm,
        ),
      )
    where
      some_averaged : eqb (averaged t buckets) 0 ≡ false
      some_averaged = averaged-ne-zero t buckets has full

  same-Goes :
      (now now' : ℕ) (e : Engine R) (ps : Phases)
      → now ≤ now'
      → AllStand now ps e.entries
      → Goes ps now' e (some (none, e))
  same-Goes now now' e ps le all = (
    none,
    e,
    ps,
    refl,
    (refl, (λ k. Stands-le now now' (ps k) (e.entries k) le (all k)), λ evs adm. adm),
  )

  observe-Goes :
      (ip : Addr) (sec now now' : ℕ) (e : Engine R) (ps : Phases)
      → All HasWindow e.catalog
      → now ≤ now'
      → AllStand now ps e.entries
      → Goes ps now' e (observe new_ulid confidence ip sec now' e)
  observe-Goes ip sec now now' e ps has le all =
      elim (Bool-cases (skips new_ulid confidence ip sec e)) [
        | inl skipped ↦
            subst (Goes ps now' e) (sym (observe-skipped new_ulid confidence ip sec now' e skipped))
              idle
        | inr on ↦
            elim (Option-cases (
              lookup_by_vector ip (classify (buckets_of new_ulid confidence ip sec e)) e.catalog)) [
                | inl unruled ↦
                    subst (Goes ps now' e)
                      (sym (observe-unruled new_ulid confidence ip sec now' e on unruled)) idle
                | inr (t, ruled) ↦
                    subst (Goes ps now' e)
                      (sym (observe-judged new_ulid confidence ip sec now' e t on ruled))
                      (judge-Goes _ now now' _ t e ps
                        (lookup_by_vector-Has ip _ e.catalog t has ruled) (not-empty _ _ _ on) le
                        all)
              ]
      ]
    where
      idle : Goes ps now' e (some (none, e))
      idle = same-Goes now now' e ps le all

  emit-same :
      (capacity : ℕ) (ev : Option AttackEvent) (e : Engine R)
      → ((emit capacity ev e).catalog ≡ e.catalog) × ((emit capacity ev e).entries ≡ e.entries)
  unfolding emit
  emit-same capacity none e = (refl, refl)
  emit-same capacity (some a) e = elim (Bool-cases (ltb (length e.out) capacity)) [
    | inl room ↦ rw room (refl, refl)
    | inr none_left ↦ rw none_left (refl, refl)
  ]

  eval_host-Goes :
      (capacity : ℕ) (ip : Addr) (sec now now' : ℕ) (e : Engine R) (ps : Phases)
      → All HasWindow e.catalog
      → now ≤ now'
      → AllStand now ps e.entries
      → Goes ps now' e (eval_host new_ulid confidence capacity ip sec now' e)
  unfolding eval_host
  eval_host-Goes capacity ip sec now now' e ps has le all =
      let (ev, e', ps', seen, (kept, stand, adm)) = observe-Goes ip sec now now' e ps has le all in
      let (same, same') = emit-same capacity ev e' in
      (
        ev,
        emit capacity ev e',
        ps',
        rw (seen, eval_host) refl,
        (same ∙ kept, subst (AllStand now' ps') (sym same') stand, adm),
      )

  -- As `Goes`, of any number of events.
  abbrev GoesOn : Phases → ℕ → Engine R → Option (List AttackEvent × Engine R) → Type 0
  GoesOn ps now e out =
      (evs : List AttackEvent) × (e' : Engine R) × (ps' : Phases) × (out ≡ some (evs, e'))
      × ((e'.catalog ≡ e.catalog)
          × AllStand now ps' e'.entries
          × ((later : List AttackEvent) → AllAdmit ps' later → AllAdmit ps (evs ++ later)))

  and_then-append :
      (ev : Option AttackEvent) (evs later : List AttackEvent)
      → and_then ev (evs ++ later) ≡ and_then ev evs ++ later
  and_then-append none evs later = refl
  and_then-append (some a) evs later = refl

  eval_hosts-GoesOn :
      (capacity : ℕ) (ips : List Addr) (sec now now' : ℕ) (e : Engine R) (ps : Phases)
      → All HasWindow e.catalog
      → now ≤ now'
      → AllStand now ps e.entries
      → GoesOn ps now' e (eval_hosts new_ulid confidence capacity ips sec now' e)
  unfolding eval_hosts
  eval_hosts-GoesOn capacity [] sec now now' e ps has le all = (
    [],
    e,
    ps,
    refl,
    (refl, (λ k. Stands-le now now' (ps k) (e.entries k) le (all k)), λ evs adm. adm),
  )
  eval_hosts-GoesOn capacity (ip ∷ ips) sec now now' e ps has le all =
      let (ev, e', ps', seen, (kept, stand, adm)) =
        eval_host-Goes capacity ip sec now now' e ps has le all in
      let (evs, e'', ps'', seen', (kept', stand', adm')) =
        eval_hosts-GoesOn capacity ips sec now' now' e' ps' (subst (All HasWindow) (sym kept) has)
          (omega arith) stand in
      (
        and_then ev evs,
        e'',
        ps'',
        rw (seen, seen', eval_hosts) refl,
        (
          kept' ∙ kept,
          stand',
          λ later all'.
              subst (AllAdmit ps) (and_then-append ev evs later)
                (adm (evs ++ later) (adm' later all')),
        ),
      )

  run_engine-AllAdmit :
      (capacity : ℕ) (ops : List Op) (now : ℕ) (e : Engine R) (ps : Phases)
      → All HasWindow e.catalog
      → AllStand now ps e.entries
      → Forward now ops
      → (evs : List AttackEvent) × (e' : Engine R) × (run_engine new_ulid confidence capacity ops e
          ≡ some (evs, e'))
        × AllAdmit ps evs
  unfolding run_engine tick_engine
  run_engine-AllAdmit capacity [] now e ps has all fwd = ([], e, refl, λ k. tt)
  run_engine-AllAdmit capacity (counts ip sec r ∷ ops) now e ps has all fwd =
      run_engine-AllAdmit capacity ops now _ ps has all fwd
  run_engine-AllAdmit capacity (takes ∷ ops) now e ps has all fwd =
      run_engine-AllAdmit capacity ops now _ ps has all fwd
  run_engine-AllAdmit capacity (ticks now' ∷ ops) now e ps has all (le, fwd) =
      let (evs, e', ps', seen, (kept, stand, adm)) =
        eval_hosts-GoesOn capacity (active_hosts (now' / second) (tick (now' / second) e.store))
          (now' / second) now now' (record e { store = tick (now' / second) e.store }) ps has le
          all in
      let (evs', e'', seen', adm') =
        run_engine-AllAdmit capacity ops now' e' ps' (subst (All HasWindow) (sym kept) has) stand
          fwd in
      (evs ++ evs', e'', rw (seen, seen', run_engine, tick_engine) refl, adm evs' adm')

  -- Whatever records come in, and whenever the bus takes events, an engine whose rules all have a
  -- window never panics, as long as its ticks go forward; and the events that it raises about each
  -- host and vector keep the contract.
  pub run_engine-Admits :
      (capacity : ℕ) (catalog : List Threshold) (rnd : R) (ops : List Op)
      → All HasWindow catalog
      → Forward 0 ops
      → (evs : List AttackEvent) × (e : Engine R) × (run_engine new_ulid confidence capacity ops
            (new_engine catalog rnd)
          ≡ some (evs, e))
        × ((k : Key) → Admits k (quiet 0) (events_of k evs))
  run_engine-Admits capacity catalog rnd ops has fwd =
      run_engine-AllAdmit capacity ops 0 (new_engine catalog rnd) (λ k. quiet 0) has
        (λ k. at_rest (omega arith)) fwd
