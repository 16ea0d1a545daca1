-- ===== src/Records/Query.antt =====
-- The query for a page of the incidents (internal/incident/store.go, `List` and `ListActive`). An
-- error of the database, which the query passes on, is left out.
pub mod Order
pub mod Paging
use mitigador.Base.{
  ℕ, String, Bool, true, false, not, ◌&&◌, ◌||◌, Option, none, some, List, [], ◌∷◌, keep, take,
  drop, length, if◌then◌else◌, leb, ltb, eqb, ◌==◌, is_some, ◌≡◌,
}
use mitigador.Aggregate.{Addr, same_addr}
use mitigador.Records.{IncidentRow}
use mitigador.Records.Query.Order.{newest_first, AreApart}

-- `Filter`; a limit of 0 is one that is not given.
pub record Filter : Type 0 where
  pub host_ip : Option Addr
  pub vector : Option String
  pub since : Option ℕ
  pub until : Option ℕ
  pub active_only : Bool
  pub limit : ℕ
  pub offset : ℕ

unfoldable pub limit_of : ℕ → ℕ
limit_of limit = if eqb limit 0 then 50 else if ltb 500 limit then 500 else limit

abbrev given : {A : Type 0} → (A → Bool) → Option A → Bool
given test none = true
given test (some a) = test a

-- The `WHERE` clause.
unfoldable pub matches : Filter → IncidentRow → Bool
matches f r =
    given (same_addr r.host_ip) f.host_ip
    && given (λ v. r.vector == v) f.vector
    && given (λ t. leb t r.started_at) f.since
    && given (λ t. ltb r.started_at t) f.until
    && (not f.active_only || not (is_some r.ended_at))

-- What the database makes of `ORDER BY started_at DESC`: which of two incidents that started at the
-- same instant comes first is not said, and may change from one query to the next.
pub record Database : Type 0 where
  pub order : List IncidentRow → List IncidentRow
  pub counts :
      (rows : List IncidentRow) (p : IncidentRow → Bool)
      → length (keep p (order rows)) ≡ length (keep p rows)
  pub ordered : (rows : List IncidentRow) → AreApart rows → order rows ≡ newest_first rows

pub record ListResult : Type 0 where
  pub items : List IncidentRow
  pub total : ℕ

unfoldable pub list : Database → Filter → List IncidentRow → ListResult
unfolding limit_of matches
list db f rows =
    let found = keep (matches f) rows in
    record {
      items = take (limit_of f.limit) (drop f.offset (db.order found));
      total = length found;
    }

abbrev pub any_filter : Filter
any_filter = record {
  host_ip = none;
  vector = none;
  since = none;
  until = none;
  active_only = false;
  limit = 0;
  offset = 0;
}

unfoldable pub list_active : Database → List IncidentRow → List IncidentRow
unfolding list
list_active db rows = (list db (record any_filter { active_only = true; limit = 500 }) rows).items
