-- ===== src/Views/IncidentDetail.antt =====
-- The page of one incident (web/src/views/IncidentDetailView.vue): its load and its timeline. The
-- language's dates are the parameters `time`, which is `getTime()`, and `local`, which is
-- `toLocaleString('pt-BR')`.
pub mod Page
use Prim.Native.String
use mitigador.Base.{
  ℕ, String, Bool, true, false, Option, none, some, List, [], ◌∷◌, ◌++◌, map, eqb, if◌then◌else◌,
  ◌==◌, ◌≡◌, inl, inr, refl, Bool-cases,
}
use mitigador.Api.Http.{Reply, Result, ok, thrown, Thrown, api_error}
use mitigador.Api.Client.{CsrfBody, plain, api}
use mitigador.Api.Client.Effects.{Client}
use mitigador.Api.Client.Errors.{Returns, api-Returns}
use mitigador.Format.{num, text, Label, Rounding}
use mitigador.Format.Rates.{format_bps, format_pps_unit}
use mitigador.Views.IncidentList.{set_date}

pub record IncidentUpdate : Type 0 where
  pub id : String
  pub incident_id : String
  pub state : String
  pub pps : ℕ
  pub bps : ℕ
  pub confidence : ℕ
  pub recorded_at : String

pub record IncidentDetail : Type 0 where
  pub id : String
  pub host_ip : String
  pub vector : String
  pub hostgroup : String
  pub peak_pps : ℕ
  pub peak_bps : ℕ
  pub score : ℕ
  pub started_at : String
  pub ended_at : Option String
  -- `none` is a missing list.
  pub updates : Option (List IncidentUpdate)

pub record Detail : Type 0 where
  pub incident : Option IncidentDetail
  pub loading : Bool
  pub not_found : Bool
  pub error : Option String

abbrev pub initial : Detail
initial = record { incident = none; loading = true; not_found = false; error = none }

unfoldable pub incident_path : String → String
incident_path id = String.◌++◌ "/api/incidents/" id

abbrev pub is_404 : Thrown → Bool
is_404 (api_error e) = eqb e.status 404
is_404 _ = false

-- `loadIncident` after its `await`, with its `finally`.
unfoldable pub incident_done : Result (Option IncidentDetail) → Detail → Detail
incident_done (ok incident) d = record d { incident = incident; loading = false }
incident_done (thrown e) d =
    if is_404 e
    then record d { not_found = true; loading = false }
    else record d { error = some "error"; loading = false }

unfoldable pub load_incident :
    Reply CsrfBody → Reply IncidentDetail → String → Detail → Client → Detail × Client
unfolding incident_path incident_done
load_incident csrf reply id d c =
    let (r, c') = api csrf reply (incident_path id) plain c in
    (incident_done r (record d { loading = true; not_found = false; error = none }), c')

pub data TimelineType : Type 0 where
  success warning failure : TimelineType

unfoldable pub timeline_type : String → TimelineType
timeline_type state =
    if state == "started" then failure else if state == "ended" then success else warning

pub record TimelineItem : Type 0 where
  pub type : TimelineType
  pub title : String
  pub time : String
  pub content : Option Label

-- `${formatPps(pps)} · ${formatBps(bps)} · Score ${score}`
abbrev figures : Rounding → ℕ → ℕ → ℕ → Label
figures r pps bps score =
    format_pps_unit r pps ++ text " · " ∷ (format_bps r bps ++ text " · Score " ∷ num score ∷ [])

module _ (r : Rounding) (local : String → String) where
  abbrev start_item : IncidentDetail → TimelineItem
  start_item i = record {
    type = failure;
    title = "Ataque iniciado";
    time = local i.started_at;
    content = some (figures r i.peak_pps i.peak_bps i.score);
  }

  update_item : IncidentUpdate → TimelineItem
  unfolding timeline_type
  update_item u = record {
    type = timeline_type u.state;
    title = if u.state == "update" then "Atualização" else u.state;
    time = local u.recorded_at;
    content = some (figures r u.pps u.bps u.confidence);
  }

  end_item : Option String → List TimelineItem
  end_item none = []
  end_item (some at) =
      record { type = success; title = "Ataque encerrado"; time = local at; content = none } ∷ []

  update_items : Option (List IncidentUpdate) → List TimelineItem
  unfolding update_item
  update_items none = []
  update_items (some updates) = map update_item updates

  -- The entries of the timeline.
  unfoldable pub timeline : IncidentDetail → List TimelineItem
  unfolding update_items end_item
  timeline i = start_item i ∷ (update_items i.updates ++ end_item (set_date i.ended_at))

-- What the page shows.
pub data Shown : Type 0 where
  spinner missing failed nothing : Shown
  detail : IncidentDetail → Shown

unfoldable pub shown : Detail → Shown
shown d = if d.loading then spinner else if d.not_found then missing else (elim d.error [
  | some _ ↦ failed
  | none ↦ elim d.incident [ none ↦ nothing | some i ↦ detail i ]
])

-- What a page has to show for how its request ended.
pub data IsAnswer (reply : Reply IncidentDetail)
    : Result (Option IncidentDetail) → Shown → Type 0 where
  found : {i : IncidentDetail} → Returns reply (some i) → IsAnswer reply (ok (some i)) (detail i)
  no_value : Returns reply none → IsAnswer reply (ok none) nothing
  not_there : {e : Thrown} → is_404 e ≡ true → IsAnswer reply (thrown e) missing
  broken : {e : Thrown} → is_404 e ≡ false → IsAnswer reply (thrown e) failed

done-IsAnswer :
    (reply : Reply IncidentDetail) (r : Result (Option IncidentDetail)) (d : Detail)
    → d.not_found ≡ false
    → d.error ≡ none
    → ((v : Option IncidentDetail) → r ≡ ok v → Returns reply v)
    → IsAnswer reply r (shown (incident_done r d))
unfolding shown incident_done
done-IsAnswer reply (ok (some i)) d h k returned = rw (h, k) (found (returned (some i) refl))
done-IsAnswer reply (ok none) d h k returned = rw (h, k) (no_value (returned none refl))
done-IsAnswer reply (thrown e) d h k returned = elim (Bool-cases (is_404 e)) [
  | inl gone ↦ rw gone (not_there gone)
  | inr other ↦ rw (other, h) (broken other)
]

-- However its request ends, a load shows what it came to: the incident that the server returned;
-- that there is none, for the status 404 and no other; an error; or an empty page, after a success
-- without content only.
pub load_incident_lem :
    (csrf : Reply CsrfBody) (reply : Reply IncidentDetail) (id : String) (d : Detail) (c : Client)
    → IsAnswer reply
        (api csrf reply (incident_path id) plain c).0
        (shown (load_incident csrf reply id d c).0)
unfolding load_incident
load_incident_lem csrf reply id d c =
    done-IsAnswer reply (api csrf reply (incident_path id) plain c).0
      (record d { loading = true; not_found = false; error = none }) refl refl
      (λ v e. api-Returns csrf (incident_path id) plain c reply e)
