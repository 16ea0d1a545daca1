-- ===== src/Detect/Engine.antt =====
-- The engine that looks at every active host once a second (internal/detect/engine.go,
-- internal/detect/classify.go). A panic is `none`. The confidence, which is computed with floats,
-- and the generator of identifiers are parameters.
pub mod Keys
pub mod Phases
pub mod Observe
pub mod Silence
pub mod Contract
use mitigador.Base.{
  ℕ, zero, suc, ◌+◌, ◌*◌, ◌/◌, ◌%◌, ◌^◌, String, Bool, true, false, ◌&&◌, ◌||◌, Option, none, some,
  List, [], ◌∷◌, ◌++◌, length, if◌then◌else◌, eqb, ltb, ◌==◌,
}
use mitigador.Aggregate.{
  Addr, same_addr, FlowRecord, Bucket, empty_bucket, Host, window_size, ◌+₆₄◌, update, tick,
  snapshot, active_hosts,
}
use mitigador.Detect.{AttackEvent, Threshold, udp_flood, icmp_flood}
use mitigador.Detect.Machine.{Key, Input, MachineEntry, fresh, second, max, step_entry}
use mitigador.Detect.Catalog.{lookup, lookup_by_vector}

abbrev pub sum_of : (Bucket → ℕ) → List Bucket → ℕ
sum_of f [] = 0
sum_of f (b ∷ bs) = f b +₆₄ sum_of f bs

-- `Classify`; modulo 2 ^ 64, the order of the sums does not matter.
unfoldable pub classify : List Bucket → String
classify buckets =
    let total_pps = sum_of (λ b. b.pps) buckets in
    let udp_pps = sum_of (λ b. b.pps_udp) buckets in
    let icmp_pps = sum_of (λ b. b.pps_icmp) buckets in
    if eqb total_pps 0
    then ""
    else if ltb total_pps ((2 * udp_pps) % 2 ^ 64)
    then udp_flood
    else if ltb total_pps ((2 * icmp_pps) % 2 ^ 64)
    then icmp_flood
    else ""

abbrev pub same_key : Key → Key → Bool
same_key a b = same_addr a.host_ip b.host_ip && a.vector == b.vector

-- An assignment to a map's entry.
abbrev pub put {ℓ} : {A : Type ℓ} → Key → A → (Key → A) → Key → A
put k a m k' = if same_key k' k then a else m k'

-- A key that is missing in the maps has a fresh entry and the streak 0. `out` is what the channel
-- holds.
pub record Engine (R : Type 0) : Type 0 where
  pub store : List Host
  pub catalog : List Threshold
  pub out : List AttackEvent
  pub entries : Key → MachineEntry
  pub rnd : R
  pub dropped : ℕ
  pub streak : Key → ℕ

abbrev pub new_engine : {R : Type 0} → List Threshold → R → Engine R
new_engine catalog rnd = record {
  store = [];
  catalog = catalog;
  out = [];
  entries = λ k. fresh;
  rnd = rnd;
  dropped = 0;
  streak = λ k. 0;
}

abbrev max_window : List Threshold → ℕ
max_window [] = 0
max_window (t ∷ ts) = max t.min_window_sec (max_window ts)

-- The window that a snapshot for some rules has.
abbrev pub snapshot_window : List Threshold → ℕ
snapshot_window ts = if ltb (max_window ts) 1 then 5 else max_window ts

abbrev take_buckets : ℕ → List Bucket → List Bucket
take_buckets zero bs = []
take_buckets (suc n) [] = []
take_buckets (suc n) (b ∷ bs) = b ∷ take_buckets n bs

abbrev first_bucket : List Bucket → Bucket
first_bucket [] = empty_bucket
first_bucket (b ∷ bs) = b

abbrev pub is_empty {ℓ} : {A : Type ℓ} → List A → Bool
is_empty [] = true
is_empty (x ∷ xs) = false

-- How many buckets an average is over.
abbrev pub averaged : Threshold → List Bucket → ℕ
averaged t buckets =
    if ltb (length buckets) t.min_window_sec then length buckets else t.min_window_sec

abbrev pub and_then {ℓ} : {A : Type ℓ} → Option A → List A → List A
and_then none evs = evs
and_then (some a) evs = a ∷ evs

-- What happens to an engine: a record is counted for a host in a second, an instant is ticked, or
-- the bus takes the first event of the channel.
pub data Op : Type 0 where
  counts : Addr → ℕ → FlowRecord → Op
  ticks : ℕ → Op
  takes : Op

abbrev pub rest_of {ℓ} : {A : Type ℓ} → List A → List A
rest_of [] = []
rest_of (a ∷ later) = later

module _ {R : Type 0} where
  -- The streak and the entry of a key after its step.
  abbrev pub recorded :
      Key
      → ℕ
      → Engine R
      → Option (Option AttackEvent × MachineEntry × R)
      → Option (Option AttackEvent × Engine R)
  recorded k streak e none = none
  recorded k streak e (some (ev, entry, rnd)) =
      some (
        ev,
        record e { entries = put k entry e.entries; rnd = rnd; streak = put k streak e.streak },
      )

  -- The `select` at the end of `evalHost`, on a channel of the given capacity.
  unfoldable pub emit : ℕ → Option AttackEvent → Engine R → Engine R
  emit capacity none e = e
  emit capacity (some a) e =
      if ltb (length e.out) capacity
      then record e { out = e.out ++ (a ∷ []) }
      else record e { dropped = e.dropped +₆₄ 1 }

module _ {R : Type 0} (new_ulid : ℕ → R → String × R) (confidence : ℕ → ℕ → Threshold → ℕ → ℕ) where
  abbrev pub input_of : ℕ → List Bucket → Threshold → ℕ → Input
  input_of now buckets t streak =
      let n = averaged t buckets in
      let avg_pps = sum_of (λ b. b.pps) (take_buckets n buckets) / n in
      let avg_bps = sum_of (λ b. b.bps) (take_buckets n buckets) / n in
      let violating = ltb t.pps avg_pps || ltb t.bps avg_bps in
      let duration = if violating then streak + 1 else 0 in
      record {
        now = now;
        current_pps = (first_bucket buckets).pps;
        current_bps = (first_bucket buckets).bps;
        avg_pps_last_window = avg_pps;
        avg_bps_last_window = avg_bps;
        violating = violating;
        duration_violated = duration;
        hostgroup = t.hostgroup_name;
        confidence = confidence avg_pps avg_bps t duration;
      }

  -- `evalHost` from the averages to `Step`. A division by 0 panics.
  unfoldable pub judge :
      Key → ℕ → List Bucket → Threshold → Engine R → Option (Option AttackEvent × Engine R)
  judge k now buckets t e =
      let i = input_of now buckets t (e.streak k) in
      if eqb (averaged t buckets) 0
      then none
      else recorded k i.duration_violated e (step_entry new_ulid k i t (e.entries k) e.rnd)

  abbrev pub buckets_of : Addr → ℕ → Engine R → List Bucket
  buckets_of ip sec e = snapshot ip sec (snapshot_window (lookup ip e.catalog)) e.store

  -- `evalHost` up to `Step`.
  unfoldable pub observe : Addr → ℕ → ℕ → Engine R → Option (Option AttackEvent × Engine R)
  unfolding judge classify
  observe ip sec now e =
      let buckets = buckets_of ip sec e in
      let vec = classify buckets in
      if is_empty (lookup ip e.catalog) || is_empty buckets || vec == ""
      then some (none, e)
      else elim (lookup_by_vector ip vec e.catalog) [
        | none ↦ some (none, e)
        | some t ↦ judge (record { host_ip = ip; vector = vec }) now buckets t e
      ]

  -- `evalHost`, and the event that it raises, sent or not.
  unfoldable pub eval_host : ℕ → Addr → ℕ → ℕ → Engine R → Option (Option AttackEvent × Engine R)
  unfolding observe emit
  eval_host capacity ip sec now e = elim (observe ip sec now e) [
    | none ↦ none
    | some (ev, e') ↦ some (ev, emit capacity ev e')
  ]

  -- The loop of `Tick`.
  unfoldable pub eval_hosts :
      ℕ → List Addr → ℕ → ℕ → Engine R → Option (List AttackEvent × Engine R)
  unfolding eval_host
  eval_hosts capacity [] sec now e = some ([], e)
  eval_hosts capacity (ip ∷ ips) sec now e = elim (eval_host capacity ip sec now e) [
    | none ↦ none
    | some (ev, e') ↦ elim (eval_hosts capacity ips sec now e') [
      | none ↦ none
      | some (evs, e'') ↦ some (and_then ev evs, e'')
    ]
  ]

  -- `Tick`, at an instant.
  unfoldable pub tick_engine : ℕ → ℕ → Engine R → Option (List AttackEvent × Engine R)
  unfolding eval_hosts
  tick_engine capacity now e =
      let sec = now / second in
      let store = tick sec e.store in
      eval_hosts capacity (active_hosts sec store) sec now (record e { store = store })

  -- The events raised, in their order.
  unfoldable pub run_engine : ℕ → List Op → Engine R → Option (List AttackEvent × Engine R)
  unfolding tick_engine
  run_engine capacity [] e = some ([], e)
  run_engine capacity (counts ip sec r ∷ ops) e =
      run_engine capacity ops (record e { store = update ip sec r e.store })
  run_engine capacity (takes ∷ ops) e = run_engine capacity ops (record e { out = rest_of e.out })
  run_engine capacity (ticks now ∷ ops) e = elim (tick_engine capacity now e) [
    | none ↦ none
    | some (evs, e') ↦ elim (run_engine capacity ops e') [
      | none ↦ none
      | some (evs', e'') ↦ some (evs ++ evs', e'')
    ]
  ]
