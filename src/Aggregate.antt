-- ===== src/Aggregate.antt =====
-- The counters of each host, one bucket for each second of a window (internal/aggregate), and the
-- flow records that they count (internal/flow/record.go). Seconds are those since 1970.
pub mod Addresses
pub mod Window
pub mod Silence
use mitigador.Base.{
  ℕ, zero, suc, ◌+◌, ◌-◌, ◌%◌, ◌^◌, String, Bool, true, false, ◌&&◌, Option, none, some, List, [],
  ◌∷◌, if◌then◌else◌, eqb, leb, ltb, set, replicate, get_or,
}

-- `netip.Addr`, without a zone: the number that its 32 or 128 bits make.
pub record Addr : Type 0 where
  pub v6 : Bool
  pub value : ℕ

abbrev pub same_bool : Bool → Bool → Bool
same_bool true b = b
same_bool false true = false
same_bool false false = true

abbrev pub same_addr : Addr → Addr → Bool
same_addr a b = same_bool a.v6 b.v6 && eqb a.value b.value

pub record FlowRecord : Type 0 where
  pub exporter : Addr
  pub dst_ip : Addr
  pub src_ip : Addr
  pub proto : ℕ
  pub bytes : ℕ
  pub packets : ℕ
  pub sample_rate : ℕ
  pub received : ℕ

abbrev proto_icmp : ℕ
proto_icmp = 1

abbrev pub proto_udp : ℕ
proto_udp = 17

abbrev proto_icmpv6 : ℕ
proto_icmpv6 = 58

pub record Bucket : Type 0 where
  pub pps : ℕ
  pub bps : ℕ
  pub pps_udp : ℕ
  pub bps_udp : ℕ
  pub pps_icmp : ℕ
  pub bps_icmp : ℕ
  pub pps_other : ℕ
  pub bps_other : ℕ

abbrev pub empty_bucket : Bucket
empty_bucket = record {
  pps = 0;
  bps = 0;
  pps_udp = 0;
  bps_udp = 0;
  pps_icmp = 0;
  bps_icmp = 0;
  pps_other = 0;
  bps_other = 0;
}

abbrev pub window_size : ℕ
window_size = 60

pub record HostRing : Type 0 where
  pub buckets : List Bucket
  pub last_sec : ℕ

abbrev pub new_ring : HostRing
new_ring = record { buckets = replicate window_size empty_bucket; last_sec = 0 }

-- The sum of two `uint64`.
infixl 6 ◌+₆₄◌
abbrev pub ◌+₆₄◌ : ℕ → ℕ → ℕ
a +₆₄ b = (a + b) % 2 ^ 64

abbrev pub slot : ℕ → ℕ
slot sec = (sec % window_size + window_size) % window_size

-- The counters of a bucket after a record.
unfoldable pub account : FlowRecord → Bucket → Bucket
account r b =
    let b' = record b { pps = b.pps +₆₄ r.packets; bps = b.bps +₆₄ r.bytes } in
    if eqb r.proto proto_udp
    then record b' { pps_udp = b.pps_udp +₆₄ r.packets; bps_udp = b.bps_udp +₆₄ r.bytes }
    else if eqb r.proto proto_icmp
    then record b' { pps_icmp = b.pps_icmp +₆₄ r.packets; bps_icmp = b.bps_icmp +₆₄ r.bytes }
    else if eqb r.proto proto_icmpv6
    then record b' { pps_icmp = b.pps_icmp +₆₄ r.packets; bps_icmp = b.bps_icmp +₆₄ r.bytes }
    else record b' { pps_other = b.pps_other +₆₄ r.packets; bps_other = b.bps_other +₆₄ r.bytes }

-- `Update` on the ring of its host.
unfoldable pub update_ring : ℕ → FlowRecord → HostRing → HostRing
update_ring sec r hr =
    let idx = slot sec in
    record {
      buckets = set hr.buckets idx (account r (get_or hr.buckets idx empty_bucket));
      last_sec = if ltb hr.last_sec sec then sec else hr.last_sec;
    }

-- `Tick` on a ring that stays.
unfoldable pub tick_ring : ℕ → HostRing → HostRing
tick_ring now hr = record hr { buckets = set hr.buckets (slot (now + 1)) empty_bucket }

-- The turns of the loop of `Snapshot` from the index `i` on. For an index below the window, the
-- slot is that of the source's `now - i`, also before 1970.
unfoldable pub snapshot_from : ℕ → ℕ → ℕ → HostRing → List Bucket
snapshot_from now i zero hr = []
snapshot_from now i (suc n) hr =
    get_or hr.buckets ((now + window_size - i) % window_size) empty_bucket
    ∷ snapshot_from now (suc i) n hr

unfoldable pub snapshot_ring : ℕ → ℕ → HostRing → List Bucket
unfolding snapshot_from
snapshot_ring now window hr =
    snapshot_from now 0 (if ltb window_size window then window_size else window) hr

-- The hosts of all the shards: which one holds a host depends on its address alone.
pub record Host : Type 0 where
  pub ip : Addr
  pub ring : HostRing

unfoldable pub find_host : Addr → List Host → Option HostRing
find_host ip [] = none
find_host ip (h ∷ hosts) = if same_addr h.ip ip then some h.ring else find_host ip hosts

-- `Update`
unfoldable pub update : Addr → ℕ → FlowRecord → List Host → List Host
unfolding update_ring
update ip sec r [] = record { ip = ip; ring = update_ring sec r new_ring } ∷ []
update ip sec r (h ∷ hosts) =
    let rest = update ip sec r hosts in
    if same_addr h.ip ip then record h { ring = update_ring sec r h.ring } ∷ hosts else h ∷ rest

-- `Tick`
unfoldable pub tick : ℕ → List Host → List Host
unfolding tick_ring
tick now [] = []
tick now (h ∷ hosts) =
    let rest = tick now hosts in
    if ltb window_size (now - h.ring.last_sec)
    then rest
    else record h { ring = tick_ring now h.ring } ∷ rest

-- `Snapshot`, whose nil is the empty list.
unfoldable pub snapshot : Addr → ℕ → ℕ → List Host → List Bucket
unfolding find_host snapshot_ring
snapshot ip now window hosts =
    if ltb window 1
    then []
    else (elim (find_host ip hosts) [ none ↦ [] | some hr ↦ snapshot_ring now window hr ])

-- `ActiveHosts`, of which the addresses are used.
unfoldable pub active_hosts : ℕ → List Host → List Addr
active_hosts now [] = []
active_hosts now (h ∷ hosts) =
    let rest = active_hosts now hosts in
    if leb (now - h.ring.last_sec) window_size then h.ip ∷ rest else rest
