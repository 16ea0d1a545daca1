-- ===== src/Tests/Detect.antt =====
-- Runs of the detector, its counters, and its buffer of records.
use mathlib.Core.List.{Permᴰ}
use mitigador.Base.{
  ℕ, zero, suc, ◌+◌, ◌*◌, ◌^◌, String, false, Option, none, some, List, [], ◌∷◌, replicate, map,
  ◌≡◌, refl, arith,
}
use mitigador.Aggregate
use mitigador.Aggregate.{
  Addr, FlowRecord, new_ring, empty_bucket, snapshot_ring, active_hosts, tick, update, account,
}
use mitigador.Aggregate.Silence.{AllEmpty}
use mitigador.Aggregate.Window
use mitigador.Aggregate.Window.{run_ring, total, sums_from, snapshot_ring-run_ring}
use mitigador.Recent.{RecentBuffer, new_recent_buffer, push_all, snapshot}
use mitigador.Recent.Refine.{snapshot-push_all}
use mitigador.Detect.{State, started, ended, AttackEvent, Threshold}
use mitigador.Detect.Machine.{
  Key, Input, Incident, cooldown, run, step_entry, second, cooldown_after_end,
}
use mitigador.Detect.Machine.Contract.{Admits, quiet}
use mitigador.Detect.Machine.Grace.{under_attack, run-Ends}
use mitigador.Detect.Catalog.{new_catalog, lookup, lookup_by_vector}
use mitigador.Detect.Catalog.LongestPrefix.{longest, lookup-new_catalog}
use mitigador.Detect.Engine.{Engine, new_engine, run_engine, classify, Op, counts, ticks, takes}
use mitigador.Detect.Engine.Phases.{events_of}
use mitigador.Detect.Engine.Contract.{run_engine-Admits}
use mitigador.Detect.Engine.Silence.{key, run_engine-silent}

-- 10.0.0.1
abbrev host : Addr
host = record { v6 = false; value = 167772161 }

abbrev network : ℕ → String → ℕ → Threshold
network bits name pps = record {
  hostgroup_id = bits;
  hostgroup_name = name;
  prefix = record { addr = record { v6 = false; value = 167772160 }; bits = bits };
  vector = "udp_flood";
  pps = pps;
  bps = 10 ^ 12;
  min_window_sec = 1;
  grace_sec = 2;
}

abbrev wide : Threshold
wide = network 8 "all" 1000

abbrev narrow : Threshold
narrow = network 24 "edge" 100

lookup-new_catalog_example :
    Permᴰ (lookup host (new_catalog (wide ∷ narrow ∷ []))) (longest host (wide ∷ narrow ∷ []))
lookup-new_catalog_example = lookup-new_catalog host (wide ∷ narrow ∷ [])

narrowest : lookup host (new_catalog (wide ∷ narrow ∷ [])) ≡ narrow ∷ []
unfolding lookup new_catalog
narrowest = refl

abbrev packets : ℕ → FlowRecord
packets n = record {
  exporter = host;
  dst_ip = host;
  src_ip = host;
  proto = 17;
  bytes = 100 * n;
  packets = n;
  sample_rate = 0;
  received = 0;
}

-- The numbers of the identifiers given out so far.
abbrev next_id : ℕ → ℕ → String × ℕ
next_id now n = ("01J", n + 1)

abbrev score : ℕ → ℕ → Threshold → ℕ → ℕ
score pps bps t duration = 1

abbrev flood : List Op
flood =
    counts host 1000 (packets 500)
    ∷ ticks (1000 * second)
    ∷ counts host 1001 (packets 10)
    ∷ ticks (1001 * second)
    ∷ ticks (1002 * second)
    ∷ []

run_engine-Admits_example :
    (evs : List AttackEvent) × (e : Engine ℕ) × (run_engine next_id score 256 flood
        (new_engine (narrow ∷ []) 0)
      ≡ some (evs, e))
    × ((k : Key) → Admits k (quiet 0) (events_of k evs))
run_engine-Admits_example =
    run_engine-Admits next_id score 256 (narrow ∷ []) 0 flood (omega arith, tt)
      (omega arith, (omega arith, (omega arith, tt)))

abbrev states : Option (List AttackEvent × Engine ℕ) → List State
states none = []
states (some (evs, e)) = map (λ a. a.state) evs

flood_starts :
    states (run_engine next_id score 256 flood (new_engine (narrow ∷ []) 0)) ≡ started ∷ []
unfolding run_engine active_hosts tick update lookup Aggregate.snapshot account lookup_by_vector
    step_entry
flood_starts = refl

abbrev attack : Incident
attack = record {
  id = "01J";
  started_at = 1000 * second;
  initial_peak_pps = 500;
  initial_peak_bps = 50000;
  peak_pps = 500;
  peak_bps = 50000;
  update_emitted = false;
  no_violation_ticks = 0;
}

-- An engine in an attack on the host, which sends nothing any more.
abbrev attacked : Engine ℕ
attacked = record (new_engine (narrow ∷ []) 0) {
  store = record { ip = host; ring = record new_ring { last_sec = 1000 } } ∷ [];
  entries = λ k. under_attack attack 0;
}

all_empty : (n : ℕ) → AllEmpty (replicate n empty_bucket)
all_empty zero = tt
all_empty (suc n) = (refl, all_empty n)

abbrev minutes : List Op
minutes = ticks (1001 * second) ∷ ticks (2000 * second) ∷ takes ∷ ticks (9000 * second) ∷ []

stays_quiet :
    run_engine next_id score 256 minutes attacked ≡ some ([], record attacked { store = [] })
unfolding run_engine active_hosts tick lookup Aggregate.snapshot classify
stays_quiet = refl

run_engine-silent_example :
    (record attacked { store = [] }).entries (key host "udp_flood")
    ≡ attacked.entries (key host "udp_flood")
run_engine-silent_example =
    run_engine-silent next_id score 256 host "udp_flood" minutes attacked []
      (record attacked { store = [] }) ((λ same. all_empty 60), tt) tt stays_quiet

abbrev calm : ℕ → Input
calm n = record {
  now = n * second;
  current_pps = 600;
  current_bps = 50;
  avg_pps_last_window = 90;
  avg_bps_last_window = 50;
  violating = false;
  duration_violated = 0;
  hostgroup = "edge";
  confidence = 0;
}

run-Ends_example :
    (a : AttackEvent) × (until : ℕ) × (run next_id
        (key host "udp_flood")
        narrow
        (calm 1010 ∷ calm 1011 ∷ [])
        (under_attack attack 0)
        0
      ≡ some (a ∷ [], record { state = cooldown; inc = none; cooldown_until = until }, 0))
    × ((a.state ≡ ended)
        × (a.incident_id ≡ "01J")
        × (a.started_at ≡ 1000 * second)
        × (a.ended_at ≡ some a.now)
        × (until ≡ a.now + cooldown_after_end)
        × (a.peak_pps ≡ 600)
        × (a.peak_bps ≡ 50000))
run-Ends_example =
    run-Ends next_id (key host "udp_flood") narrow (calm 1010) (calm 1011 ∷ []) attack 0 0
      (refl, (refl, tt)) refl

abbrev seconds : List Window.Op
seconds = Window.counts 1001 (packets 3) ∷ Window.ticks ∷ Window.counts 1001 (packets 4) ∷ []

snapshot_ring-run_ring_example :
    let (now, hr) = run_ring 1000 seconds new_ring in
    snapshot_ring now 2 hr ≡ sums_from (λ s. total s seconds empty_bucket) now 0 2
snapshot_ring-run_ring_example =
    snapshot_ring-run_ring 1000 seconds 2 (omega arith)
      (omega arith, omega arith, (omega arith, omega arith, tt))

both_counted :
    map (λ b. b.pps) (sums_from (λ s. total s seconds empty_bucket) 1001 0 2) ≡ 7 ∷ 0 ∷ []
unfolding account
both_counted = refl

snapshot-push_all_example :
    (b : RecentBuffer ℕ) × (push_all (1 ∷ 2 ∷ 3 ∷ []) (new_recent_buffer 0 2) ≡ some b)
    × (snapshot 0 b ≡ some (3 ∷ 2 ∷ []))
snapshot-push_all_example = snapshot-push_all 0 2 0 (1 ∷ 2 ∷ 3 ∷ [])
