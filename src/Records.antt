-- ===== src/Records.antt =====
-- The recorder of the attacks (internal/incident/recorder.go) and its tables
-- (internal/incident/store.go, internal/storage/postgres/migrations). The database is a package: an
-- error of it, at any statement of a transaction or at its end, leaves the tables as they were. A number
-- in a column is held as the 64 bits of its two's complement, so that one from 2 ^ 63 on is negative.
pub mod Rows
pub mod LastEvent
pub mod Query
use mitigador.Base.{
  ℕ, ◌+◌, ◌%◌, ◌^◌, leb, String, Bool, ◌||◌, Option, none, some, List, [], ◌∷◌, ◌++◌, if◌then◌else◌,
  ltb, ◌==◌, is_some,
}
use mitigador.Aggregate.{Addr}
use mitigador.Detect.{State, started, updated, ended, AttackEvent, udp_flood, icmp_flood}

-- A row of `incidents`.
pub record IncidentRow : Type 0 where
  pub id : String
  pub host_ip : Addr
  pub vector : String
  pub hostgroup_id : Option ℕ
  pub started_at : ℕ
  pub ended_at : Option ℕ
  pub peak_pps : ℕ
  pub peak_bps : ℕ
  pub score : ℕ
  pub created_at : ℕ

-- A row of `attack_updates`.
pub record UpdateRow : Type 0 where
  pub incident_id : String
  pub observed_at : ℕ
  pub pps : ℕ
  pub bps : ℕ
  pub score : ℕ
  pub kind : String

pub record Tables : Type 0 where
  pub incidents : List IncidentRow
  pub attack_updates : List UpdateRow

-- The check on the column `vector`.
abbrev pub is_vector : String → Bool
is_vector v = v == udp_flood || v == icmp_flood

-- The row of a primary key.
unfoldable pub find_row : String → List IncidentRow → Option IncidentRow
find_row id [] = none
find_row id (r ∷ rows) = if r.id == id then some r else find_row id rows

-- `UPDATE incidents ... WHERE id = $1`
unfoldable pub update_rows :
    (IncidentRow → IncidentRow) → String → List IncidentRow → List IncidentRow
update_rows f id [] = []
update_rows f id (r ∷ rows) =
    let rest = update_rows f id rows in if r.id == id then f r ∷ rest else r ∷ rest

-- An event with the time at which the database takes it, and whether the database fails.
pub record Taken : Type 0 where
  pub event : AttackEvent
  pub at : ℕ
  pub fails : Bool

-- `int64(v)`, which keeps the bits of a uint64.
unfoldable pub int64 : ℕ → ℕ
int64 v = v % 2 ^ 64

-- A column's bits, shifted so that they compare as the signed numbers do.
abbrev pub rank : ℕ → ℕ
rank v = (v + 2 ^ 63) % 2 ^ 64

-- `GREATEST` of two columns, which are signed.
unfoldable pub greatest : ℕ → ℕ → ℕ
greatest a b = if leb (rank a) (rank b) then b else a

abbrev pub raise_peaks : AttackEvent → IncidentRow → IncidentRow
raise_peaks ev r = record r {
  peak_pps = greatest r.peak_pps (int64 ev.peak_pps);
  peak_bps = greatest r.peak_bps (int64 ev.peak_bps);
  score = ev.confidence;
}

abbrev pub or_same : Tables → Option Tables → Tables
or_same t none = t
or_same t (some t') = t'

-- What the database makes of an instant, and of the zero time, and of the name of a host group.
module _ (stamp : Option ℕ → ℕ) (hostgroup : String → Option ℕ) where
  abbrev update_row : String → AttackEvent → UpdateRow
  update_row kind ev = record {
    incident_id = ev.incident_id;
    observed_at = stamp (some ev.now);
    pps = int64 ev.pps;
    bps = int64 ev.bps;
    score = ev.confidence;
    kind = kind;
  }

  -- `INSERT INTO attack_updates`, whose incident has to be there.
  abbrev pub add_update : String → AttackEvent → List IncidentRow → Tables → Option Tables
  add_update kind ev rows t =
      if is_some (find_row ev.incident_id rows)
      then some (record {
        incidents = rows;
        attack_updates = t.attack_updates ++ (update_row kind ev ∷ []);
      })
      else none

  abbrev pub new_row : ℕ → AttackEvent → IncidentRow
  new_row created_at ev = record {
    id = ev.incident_id;
    host_ip = ev.host_ip;
    vector = ev.vector;
    hostgroup_id = hostgroup ev.hostgroup;
    started_at = stamp (some ev.started_at);
    ended_at = none;
    peak_pps = int64 ev.peak_pps;
    peak_bps = int64 ev.peak_bps;
    score = ev.confidence;
    created_at = created_at;
  }

  abbrev pub inserted : ℕ → AttackEvent → List IncidentRow → List IncidentRow
  inserted created_at ev rows =
      if is_some (find_row ev.incident_id rows) then rows else rows ++ (new_row created_at ev ∷ [])

  -- `Create`, with the database's time. An error, such as that of a vector which the table's check
  -- refuses, is `none`.
  unfoldable pub create : ℕ → AttackEvent → Tables → Option Tables
  create created_at ev t =
      if is_vector ev.vector
      then add_update "started" ev (inserted created_at ev t.incidents) t
      else none

  -- `Update`
  unfoldable pub update_incident : AttackEvent → Tables → Option Tables
  update_incident ev t =
      add_update "update" ev (update_rows (raise_peaks ev) ev.incident_id t.incidents) t

  abbrev pub close_row : AttackEvent → IncidentRow → IncidentRow
  close_row ev r = record (raise_peaks ev r) { ended_at = some (stamp ev.ended_at) }

  -- `End`
  unfoldable pub end_incident : AttackEvent → Tables → Option Tables
  end_incident ev t =
      add_update "ended" ev (update_rows (close_row ev) ev.incident_id t.incidents) t

  abbrev pub by_state : State → ℕ → AttackEvent → Tables → Option Tables
  by_state started created_at ev t = create created_at ev t
  by_state updated created_at ev t = update_incident ev t
  by_state ended created_at ev t = end_incident ev t

  -- `handle`, whose errors are only written to the log.
  unfoldable pub handle : Taken → Tables → Tables
  unfolding create update_incident end_incident
  handle x t = if x.fails then t else or_same t (by_state x.event.state x.at x.event t)

  -- The loop of `Run`.
  unfoldable pub handle_all : List Taken → Tables → Tables
  unfolding handle
  handle_all [] t = t
  handle_all (x ∷ xs) t = handle_all xs (handle x t)

-- `CloseOrphans`
unfoldable pub close_orphans : ℕ → List IncidentRow → List IncidentRow
close_orphans cutoff [] = []
close_orphans cutoff (r ∷ rows) =
    let rest = close_orphans cutoff rows in
    if is_some r.ended_at
    then r ∷ rest
    else if ltb r.created_at cutoff
    then record r { ended_at = some cutoff } ∷ rest
    else r ∷ rest
