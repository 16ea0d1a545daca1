-- ===== src/Detect.antt =====
-- The detector of the server: its events (internal/detect/event.go) and the rules it is configured
-- with (internal/detect/thresholds.go).
pub mod Machine
pub mod Catalog
pub mod Engine
use mitigador.Base.{ℕ, String, Option}
use mitigador.Aggregate.{Addr}

-- `netip.Prefix`
pub record Prefix : Type 0 where
  pub addr : Addr
  pub bits : ℕ

pub data State : Type 0 where
  started updated ended : State

abbrev pub udp_flood : String
udp_flood = "udp_flood"

abbrev pub icmp_flood : String
icmp_flood = "icmp_flood"

-- Instants are nanoseconds; `none` is the zero time. The confidence, a float that is never computed
-- with here, is a whole number as in the model of the client.
pub record AttackEvent : Type 0 where
  pub incident_id : String
  pub state : State
  pub host_ip : Addr
  pub vector : String
  pub hostgroup : String
  pub pps : ℕ
  pub bps : ℕ
  pub peak_pps : ℕ
  pub peak_bps : ℕ
  pub confidence : ℕ
  pub started_at : ℕ
  pub ended_at : Option ℕ
  pub now : ℕ

-- The database checks that the numbers of seconds are not negative.
pub record Threshold : Type 0 where
  pub hostgroup_id : ℕ
  pub hostgroup_name : String
  pub prefix : Prefix
  pub vector : String
  pub pps : ℕ
  pub bps : ℕ
  pub min_window_sec : ℕ
  pub grace_sec : ℕ
