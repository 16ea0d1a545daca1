-- ===== src/Views/IncidentDetail/Page.antt =====
-- What the page of one incident shows above and below its timeline (the template of
-- web/src/views/IncidentDetailView.vue).
use mitigador.Base.{
  ℕ, String, Option, none, some, List, [], ◌∷◌, ◌++◌, if◌then◌else◌, ◌==◌, ◌≡◌, refl,
}
use mitigador.Format.{Label, Rounding, text, translated}
use mitigador.Format.Rates.{format_bps, format_pps_unit}
use mitigador.Format.Duration.{format_span}
use mitigador.Views.IncidentList.{set_date, slice}
use mitigador.Views.IncidentDetail.{
  IncidentDetail, TimelineItem, success, timeline, start_item, update_items, end_item,
}

-- The last entry of the breadcrumb.
unfoldable pub crumb : String → String
unfolding slice
crumb id = slice 12 id

unfoldable pub vector_label : String → Label
vector_label vector =
    if vector == "udp_flood"
    then translated "vetor.udp_flood" ∷ []
    else if vector == "icmp_flood"
    then translated "vetor.icmp_flood" ∷ []
    else text vector ∷ []

pub data VectorTag : Type 0 where
  error warning : VectorTag

unfoldable pub vector_tag : String → VectorTag
vector_tag vector = if vector == "udp_flood" then error else warning

-- The tag of an incident that is over, and that of one that goes on.
pub data StatusTag : Type 0 where
  closed live : StatusTag

unfoldable pub status_tag : Option String → StatusTag
status_tag none = live
status_tag (some _) = closed

unfoldable pub group_text : String → String
group_text hostgroup = if hostgroup == "" then "—" else hostgroup

pub record Page : Type 0 where
  pub address : String
  pub tag : VectorTag
  pub vector : Label
  pub status : StatusTag
  pub packets : Label
  pub bits : Label
  pub score : ℕ
  pub duration : Label
  pub items : List TimelineItem
  pub group : String
  pub criteria : Label

module _ (r : Rounding) (time : String → ℕ) (local : String → String) (now : ℕ) where
  date_of : Option String → Option ℕ
  date_of none = none
  date_of (some s) = some (time s)

  unfoldable pub page : IncidentDetail → Page
  unfolding vector_tag vector_label status_tag group_text date_of timeline
  page i = record {
    address = i.host_ip;
    tag = vector_tag i.vector;
    vector = vector_label i.vector;
    status = status_tag (set_date i.ended_at);
    packets = format_pps_unit r i.peak_pps;
    bits = format_bps r i.peak_bps;
    score = i.score;
    duration = format_span now (time i.started_at) (date_of (set_date i.ended_at));
    items = timeline r local i;
    group = group_text i.hostgroup;
    criteria =
        text "PPS: "
        ∷ (format_pps_unit r i.peak_pps ++ text " · " ∷ text "BPS: " ∷ format_bps r i.peak_bps);
  }

  -- The tag and the timeline tell the same end.
  pub data IsEnded (p : Page) : Option String → Type 0 where
    goes_on : p.status ≡ live → IsEnded p none
    over :
        {at : String} (before : List TimelineItem)
        → p.status ≡ closed
        → p.items
          ≡ before
            ++ record {
              type = success;
              title = "Ataque encerrado";
              time = local at;
              content = none;
            }
              ∷ []
        → IsEnded p (some at)

  page-cases :
      (i : IncidentDetail) (end_ : Option String)
      → set_date i.ended_at ≡ end_
      → IsEnded (page i) end_
  unfolding page status_tag timeline end_item
  page-cases i none e = goes_on (simp e refl)
  page-cases i (some at) e =
      over (start_item r local i ∷ update_items r local i.updates) (simp e refl) (simp e refl)

  -- An incident without an end is tagged as going on. One with an end is tagged as over, and its
  -- timeline ends with the entry of that end. An empty text for the end counts as none.
  page-IsEnded : (i : IncidentDetail) → IsEnded (page i) (set_date i.ended_at)
  page-IsEnded i = page-cases i (set_date i.ended_at) refl
