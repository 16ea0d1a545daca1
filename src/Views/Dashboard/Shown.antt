-- ===== src/Views/Dashboard/Shown.antt =====
-- What the live page shows (the template of web/src/views/DashboardView.vue). The language's dates
-- are the parameters `time`, which is `getTime()`, and `now`.
use mitigador.Base.{
  ℕ, String, false, none, some, is_some, List, [], ◌∷◌, ◌++◌, map, leb, if◌then◌else◌, ◌==◌, ◌≡◌,
  ◌⊎◌, inl, inr,
}
use mitigador.Api.Client.Effects.{Client}
use mitigador.Format.{Label, Rounding, text, translated}
use mitigador.Format.Rates.{format_bps, format_pps}
use mitigador.Format.Duration.{format_duration, format_relative}
use mitigador.Stores.Incidents.{ActiveAttack, active_count}
use mitigador.Views.Dashboard.{Dashboard, active_rows}
use mitigador.Views.Dashboard.Styles.{Styles, row_style}
use mitigador.Views.Dashboard.Summary.{Summary, load_summary, IsShown, load_summary_lem}

-- The numbers of the three cards at the top.
pub record Strip : Type 0 where
  pub attacks : ℕ
  pub online : ℕ
  pub alerts : ℕ

unfoldable pub strip : Dashboard → Strip
unfolding active_count
strip d = record {
  attacks = active_count d.store.active;
  online = d.exporters_online;
  alerts = d.alerts_today;
}

pub data VectorTag : Type 0 where
  error warning : VectorTag

unfoldable pub vector_tag : String → VectorTag
vector_tag vector = if vector == "udp_flood" then error else warning

unfoldable pub vector_label : String → Label
vector_label vector =
    if vector == "udp_flood"
    then translated "vetor.udp_flood" ∷ []
    else if vector == "icmp_flood"
    then translated "vetor.icmp_flood" ∷ []
    else text vector ∷ []

-- The colour of the progress bar.
unfoldable pub bar_color : ℕ → String
bar_color confidence =
    if leb 80 confidence then "#d03050" else if leb 40 confidence then "#f0a020" else "#18a058"

pub record Row : Type 0 where
  pub style : Styles
  pub address : String
  pub tag : VectorTag
  pub vector : Label
  pub packets : Label
  pub bits : Label
  pub duration : Label
  -- The bar's percentage, which is also the number beside it.
  pub score : ℕ
  pub color : String
  pub since : Label

-- The card of an attack on a narrow screen.
pub record Card : Type 0 where
  pub style : Styles
  pub address : String
  pub tag : VectorTag
  pub vector : Label
  pub packets : Label
  pub bits : Label
  pub duration : Label
  pub score : ℕ

-- The notice that there is no attack, or the table.
pub data Table : Type 0 where
  empty : Table
  rows : List Row → Table

pub data Shown : Type 0 where
  spinner banner : Shown
  attacks : Table → List Card → Shown

module _ (r : Rounding) (time : String → ℕ) (now : ℕ) where
  unfoldable pub row : Dashboard → ActiveAttack → Row
  unfolding row_style vector_tag vector_label bar_color
  row d a = record {
    style = row_style d a;
    address = a.host_ip;
    tag = vector_tag a.vector;
    vector = vector_label a.vector;
    packets = format_pps r a.pps;
    bits = format_bps r a.bps;
    duration = format_duration now (time a.started_at);
    score = a.confidence;
    color = bar_color a.confidence;
    since = format_relative now (time a.started_at);
  }

  unfoldable pub card : Dashboard → ActiveAttack → Card
  unfolding row_style vector_tag vector_label
  card d a = record {
    style = row_style d a;
    address = a.host_ip;
    tag = vector_tag a.vector;
    vector = vector_label a.vector;
    packets = format_pps r a.pps ++ text " pps" ∷ [];
    bits = format_bps r a.bps;
    duration = format_duration now (time a.started_at);
    score = a.confidence;
  }

  table : Dashboard → List ActiveAttack → Table
  unfolding row
  table d [] = empty
  table d (a ∷ active) = rows (map (row d) (a ∷ active))

  -- Both layouts are in the page; the width of the screen hides one of them.
  unfoldable pub shown : Dashboard → Shown
  unfolding active_rows table card
  shown d =
      if d.loading_snapshot
      then spinner
      else if is_some d.snapshot_error
      then banner
      else attacks (table d (active_rows d)) (map (card d) (active_rows d))

  -- The page that a load leaves shows what the load came to: the alert with its button, or the
  -- attacks below figures that two successful replies gave.
  pub data IsLoaded (net : Summary) (d : Dashboard) : Shown → Type 0 where
    failed : d.snapshot_error ≡ some "error" → IsLoaded net d banner
    loaded : {t : Table} {cards : List Card} → IsShown net d → IsLoaded net d (attacks t cards)

  shown-cases :
      (net : Summary) (d : Dashboard)
      → d.loading_snapshot ≡ false
      → (d.snapshot_error ≡ some "error") ⊎ ((d.snapshot_error ≡ none) × IsShown net d)
      → IsLoaded net d (shown d)
  unfolding shown
  shown-cases net d h (inl e) = simp (h, e) (failed e)
  shown-cases net d h (inr (e, figures)) = simp (h, e) (loaded figures)

  -- However its requests end, a load leaves the page without its spinner: the page shows the alert,
  -- or it shows the attacks, and then the figures above them come from replies that both succeeded.
  pub shown-load_summary :
      (net : Summary) (d : Dashboard) (c : Client)
      → let d' = (load_summary net d c).0 in IsLoaded net d' (shown d')
  shown-load_summary net d c =
      let (over, cases) = load_summary_lem net d c in
      shown-cases net (load_summary net d c).0 over cases
