-- ===== src/Views/IncidentList.antt =====
-- The list of the incidents (web/src/views/IncidentListView.vue): its state, its requests, which
-- reply in any order, and what it shows. The language's dates are the parameters `time`, which is
-- `getTime()`, and `calendar`.
pub mod Paging
use Prim.Native.String
use mitigador.Base.{
  ℕ, zero, suc, ◌+◌, ◌-◌, ◌*◌, ◌/◌, String, Bool, true, false, Option, none, some, List, [], ◌∷◌,
  ◌++◌, map, eqb, ltb, if◌then◌else◌, ◌==◌,
}
use mitigador.Api.Http.{Result, ok, thrown}
use mitigador.Format.{num, text, translated, Label, Rounding}
use mitigador.Format.Rates.{format_bps, format_pps_unit}
use mitigador.Format.Duration.{format_span}

pub record Incident : Type 0 where
  pub id : String
  pub host_ip : String
  pub vector : String
  pub peak_pps : ℕ
  pub peak_bps : ℕ
  pub score : ℕ
  pub started_at : String
  pub ended_at : Option String

pub record IncidentPage : Type 0 where
  pub items : List Incident
  pub total : ℕ

-- The page; `calls` are the offsets of the open requests.
pub record IncidentList : Type 0 where
  pub incidents : List Incident
  pub total : ℕ
  pub loading : Bool
  pub error : Option String
  pub page : ℕ
  pub calls : List ℕ

abbrev pub initial : IncidentList
initial = record { incidents = []; total = 0; loading = true; error = none; page = 1; calls = [] }

abbrev pub page_size : ℕ
page_size = 50

-- The computed `offset`; pages are counted from 1.
unfoldable pub offset : ℕ → ℕ
offset page = (page - 1) * page_size

-- The path of the request, with the numbers as `show` prints them.
unfoldable pub incidents_path : (show : ℕ → String) → ℕ → String
incidents_path show from =
    String.◌++◌ (String.◌++◌ "/api/incidents?limit=" (show page_size))
      (String.◌++◌ "&offset=" (show from))

-- `loadIncidents` up to its `await`.
unfoldable pub load_incidents : IncidentList → IncidentList
unfolding offset
load_incidents p = record p { loading = true; error = none; calls = p.calls ++ offset p.page ∷ [] }

-- The rest of it.
unfoldable pub incidents_done : Result (Option IncidentPage) → IncidentList → IncidentList
incidents_done (ok (some res)) p = record p {
  incidents = res.items;
  total = res.total;
  loading = false;
}
incidents_done (ok none) p = record p { error = some "error"; loading = false }
incidents_done (thrown _) p = record p { error = some "error"; loading = false }

erase_call : ℕ → List ℕ → List ℕ
erase_call n [] = []
erase_call n (c ∷ calls) = if eqb c n then calls else c ∷ erase_call n calls

-- The reply to the request with that offset.
unfoldable pub incidents_reply : ℕ → Result (Option IncidentPage) → IncidentList → IncidentList
unfolding incidents_done erase_call
incidents_reply from r p = incidents_done r (record p { calls = erase_call from p.calls })

unfoldable pub retry : IncidentList → IncidentList
unfolding load_incidents
retry p = load_incidents p

-- The pagination sets `page`, and its watcher loads.
unfoldable pub go_to_page : ℕ → IncidentList → IncidentList
unfolding load_incidents
go_to_page page p = if eqb p.page page then p else load_incidents (record p { page = page })

-- `Math.ceil(total / pageSize)`
unfoldable pub page_count : ℕ → ℕ
page_count total = (total + 49) / page_size

-- The first characters of a text. Identifiers have no character that takes two code units.
unfoldable pub slice : ℕ → String → String
slice zero s = ""
slice (suc n) String.[] = ""
slice (suc n) (String.◌∷◌ c s) = String.◌∷◌ c (slice n s)

unfoldable pub truncate_id : String → String
unfolding slice
truncate_id id = slice 12 id

-- The parts of a date in the visitor's time zone; months are counted from 0.
pub record Calendar : Type 0 where
  pub day : ℕ
  pub month : ℕ
  pub year : ℕ
  pub hours : ℕ
  pub minutes : ℕ

abbrev pad : ℕ → Label
pad n = if ltb n 10 then text "0" ∷ num n ∷ [] else num n ∷ []

unfoldable pub format_timestamp : Calendar → Label
format_timestamp d =
    pad d.day
    ++ text "/"
      ∷ (pad (d.month + 1)
          ++ text "/" ∷ num d.year ∷ text " " ∷ (pad d.hours ++ text ":" ∷ pad d.minutes))

unfoldable pub vector_label : String → Label
vector_label vector =
    if vector == "udp_flood"
    then translated "vetor.udp_flood" ∷ []
    else if vector == "icmp_flood"
    then translated "vetor.icmp_flood" ∷ []
    else text vector ∷ []

unfoldable pub incident_link : String → String
incident_link id = String.◌++◌ "/incidents/" id

-- `inc.ended_at` as a condition: an empty text counts as none.
abbrev pub set_date : Option String → Option String
set_date none = none
set_date (some s) = if s == "" then none else some s

pub record Row : Type 0 where
  pub link : String
  pub short_id : String
  pub address : String
  pub is_udp : Bool
  pub attack : Label
  pub packets : Label
  pub bits : Label
  pub points : ℕ
  pub started : Label
  pub lasts : Label
  pub ended : Bool

module _ (r : Rounding) (time : String → ℕ) (calendar : String → Calendar) (now : ℕ) where
  unfoldable pub row : Incident → Row
  unfolding incident_link truncate_id vector_label format_timestamp
  row inc = record {
    link = incident_link inc.id;
    short_id = truncate_id inc.id;
    address = inc.host_ip;
    is_udp = inc.vector == "udp_flood";
    attack = vector_label inc.vector;
    packets = format_pps_unit r inc.peak_pps;
    bits = format_bps r inc.peak_bps;
    points = inc.score;
    started = format_timestamp (calendar inc.started_at);
    lasts = format_span now (time inc.started_at) (timed (set_date inc.ended_at));
    ended = has_ended (set_date inc.ended_at);
  }
    where
      timed : Option String → Option ℕ
      timed none = none
      timed (some s) = some (time s)

      has_ended : Option String → Bool
      has_ended none = false
      has_ended (some _) = true

-- What the page shows: the rows with the number of pages, or one of the other states.
pub data Shown (R : Type 0) : Type 0 where
  spinner error empty : Shown R
  table : List R → ℕ → Shown R

shown_rows : {R : Type 0} → (Incident → R) → ℕ → List Incident → Shown R
unfolding page_count
shown_rows f total [] = empty
shown_rows f total (i ∷ is) = table (map f (i ∷ is)) (page_count total)

unfoldable pub shown : {R : Type 0} → (Incident → R) → IncidentList → Shown R
unfolding shown_rows
shown f p =
    if p.loading
    then spinner
    else (elim p.error [ some _ ↦ error | none ↦ shown_rows f p.total p.incidents ])
