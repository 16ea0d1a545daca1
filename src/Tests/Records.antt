-- ===== src/Tests/Records.antt =====
-- Runs of the recorder of the attacks.
use mathlib.Core.Option
use mitigador.Base.{
  inl, inr, map, sym, ℕ, ◌*◌, ◌+◌, ◌^◌, String, false, true, Option, none, some, List, [], ◌∷◌, ◌≡◌,
  refl, arith,
}
use mitigador.Detect.{State, started, updated, ended, AttackEvent}
use mitigador.Detect.Machine.{Key}
use mitigador.Records.{
  IncidentRow, Tables, Taken, find_row, update_rows, handle_all, close_orphans, new_row, int64,
  greatest,
}
use mitigador.Records.Query.{Database, list, any_filter}
use mitigador.Records.Query.Order.{newest_first, newest_first-IsNewest}
use mitigador.Records.Query.Paging.{pages_served, page_filter, pages_served-list}
use mitigador.Base.Decimal.{digit, show_before, show}
use mitigador.Server.Incidents.{atoi, pos, negsuc, good, filter_of}
use mitigador.Server.Incidents.Requests.{Doubles, page_query, snapshot_query, filter_of-page_query}
use mitigador.Server.Incidents.Replies.{IsUnread, handle_get, handle_get-IsUnread}
use mitigador.Views.IncidentList.{page_count, offset}
use mitigador.Aggregate.{Addr}
use mitigador.Records.LastEvent.{events_with, last_of, Shows, handle_all-Shows}

abbrev flooded : Key
flooded = record { host_ip = record { v6 = false; value = 167772161 }; vector = "udp_flood" }

abbrev says : String → State → ℕ → AttackEvent
says id state n = record {
  incident_id = id;
  state = state;
  host_ip = flooded.host_ip;
  vector = flooded.vector;
  hostgroup = "edge";
  pps = 100 * n;
  bps = 1000 * n;
  peak_pps = 100 * n;
  peak_bps = 1000 * n;
  confidence = n;
  started_at = 1;
  ended_at = some n;
  now = n;
}

abbrev stamped : Option ℕ → ℕ
stamped none = 0
stamped (some n) = n

abbrev groups : String → Option ℕ
groups name = some 4

abbrev stored : String → State → ℕ → Taken
stored id state n = record { event = says id state n; at = n; fails = false }

abbrev unstored : String → State → ℕ → Taken
unstored id state n = record { event = says id state n; at = n; fails = true }

abbrev no_rows : Tables
no_rows = record { incidents = []; attack_updates = [] }

abbrev history : List Taken
history = unstored "02K" started 2 ∷ stored "01J" updated 5 ∷ stored "01J" ended 9 ∷ []

absent : find_row "01J" no_rows.incidents ≡ none
unfolding find_row
absent = refl

handle_all-Shows_example :
    (r : IncidentRow) × (find_row "01J"
        (handle_all stamped groups (stored "01J" started 1 ∷ history) no_rows).incidents
      ≡ some r)
    × Shows stamped groups (last_of (says "01J" started 1) (events_with "01J" history)) r
handle_all-Shows_example =
    handle_all-Shows stamped groups flooded 0 "01J" (stored "01J" started 1) history no_rows absent
      refl refl ((λ e. refl), ((λ e. sym e), ((λ e. refl), ((λ e. refl), tt))))
      (
        refl,
        refl,
        refl,
        refl,
        omega arith,
        (
          (refl, refl, refl, refl, omega arith, omega arith),
          inl (
            refl,
            refl,
            ((refl, refl, refl, refl, omega arith, omega arith), inr (refl, refl, tt)),
          ),
        ),
      )
      ((λ e. cc), ((λ e. cc), tt))
      ((omega arith, omega arith), ((omega arith, omega arith), ((omega arith, omega arith), tt)))

-- From 2 ^ 63 on a peak is stored as a negative number, which gives way to any smaller one below.
negative_gives_way : greatest (int64 (2 ^ 63 + 5)) (int64 7) ≡ 7
unfolding greatest int64
negative_gives_way = refl

-- The row after the whole history, and that of an attack that was going on before a restart.
ends_at_nine :
    Option.map
      (λ r. r.ended_at)
      (find_row "01J"
        (handle_all stamped groups (stored "01J" started 1 ∷ history) no_rows).incidents)
    ≡ some (some 9)
unfolding find_row handle_all update_rows
ends_at_nine = refl

orphan_closed :
    map (λ r. r.ended_at) (close_orphans 7 (new_row stamped groups 3 (says "01J" started 1) ∷ []))
    ≡ some 7 ∷ []
unfolding close_orphans
orphan_closed = refl

abbrev row_of : String → ℕ → IncidentRow
row_of id n = record (new_row stamped groups n (says id started n)) { started_at = n }

abbrev old_first : List IncidentRow
old_first = row_of "01J" 3 ∷ row_of "02K" 5 ∷ row_of "03L" 4 ∷ []

-- A database that always gives the same order.
abbrev sorting : Database
sorting = record {
  order = newest_first;
  counts = λ rows. (newest_first-IsNewest rows).1;
  ordered = λ rows apart. refl;
}

pages_served-list_example :
    pages_served
      (λ page. sorting)
      old_first
      (page_count (list sorting (page_filter 2) old_first).total)
      1
    ≡ newest_first old_first
pages_served-list_example =
    pages_served-list (λ page. sorting) old_first 2
      (((λ e. cc), ((λ e. cc), tt)), (((λ e. cc), tt), (tt, tt)))

newest : map (λ r. r.id) (newest_first old_first) ≡ "02K" ∷ "03L" ∷ "01J" ∷ []
unfolding newest_first
newest = refl

abbrev address : Addr → String
address a = "10.0.0.1"

abbrev date : ℕ → String
date n = "2026-05-01T10:00:00Z"

abbrev group : Option ℕ → String
group o = "edge"

handle_get-IsUnread_example :
    IsUnread address date group
      (λ us. us)
      (handle_get address date group
        (λ us. us)
        false
        "02K"
        (record { incidents = old_first; attack_updates = [] }))
handle_get-IsUnread_example =
    handle_get-IsUnread address date group (λ us. us) "02K"
      (record { incidents = old_first; attack_updates = [] }) (row_of "02K" 5)
      (unfold find_row in refl)

numbers :
    (atoi "500" ≡ some (pos 500))
    × (atoi "-3" ≡ some (negsuc 2))
    × (atoi "" ≡ none)
    × (atoi "5x" ≡ none)
    × (atoi "9223372036854775808" ≡ none)
unfolding atoi
numbers = (refl, refl, refl, refl, refl)

-- Numbers without rounding.
abbrev unrounded : Doubles
unrounded = record {
  times = λ a b. a * b;
  print = show;
  times-exact = λ a b h. refl;
  print-exact = λ n h. refl;
}

filter_of-page_query_example :
    (filter_of (λ s. none) (λ s. none) (page_query unrounded 3) ≡ good (page_filter 3))
    × (filter_of (λ s. none) (λ s. none) snapshot_query
        ≡ good (record any_filter { active_only = true; limit = 500 }))
filter_of-page_query_example =
    filter_of-page_query (λ s. none) (λ s. none) unrounded 3 (unfold offset in omega arith)

third_page : (page_query unrounded 3).offset ≡ "100"
unfolding page_query show show_before digit
third_page = refl
