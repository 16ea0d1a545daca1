-- ===== src/Views/Dashboard/Styles.antt =====
-- The styles of a row of the live page (web/src/views/DashboardView.vue), as the properties of the
-- object that `rowStyle` returns.
use mitigador.Base.{ℕ, String, Bool, true, false, List, [], ◌∷◌, leb, if◌then◌else◌, ◌==◌}
use mitigador.Stores.Incidents.{ActiveAttack}
use mitigador.Views.Dashboard.{Dashboard, has}

abbrev pub Styles : Type 0
Styles = List (String × String)

-- An assignment to a property.
unfoldable pub assign : String → String → Styles → Styles
assign key value [] = (key, value) ∷ []
assign key value ((k, v) ∷ styles) =
    if k == key then (key, value) ∷ styles else (k, v) ∷ assign key value styles

abbrev pub border : ℕ → String
border confidence =
    if leb 80 confidence
    then "3px solid #d03050"
    else if leb 40 confidence
    then "3px solid #f0a020"
    else "3px solid transparent"

fading_style : Bool → Styles → Styles
unfolding assign
fading_style false styles = styles
fading_style true styles =
    assign "transition" "opacity 0.5s"
      (assign "text-decoration" "line-through" (assign "opacity" "0.3" styles))

flashing_style : Bool → Styles → Styles
unfolding assign
flashing_style false styles = styles
flashing_style true styles =
    assign "transition" "background-color 1s"
      (assign "background-color" "rgba(24, 160, 88, 0.12)" styles)

unfoldable pub row_style : Dashboard → ActiveAttack → Styles
unfolding assign fading_style flashing_style
row_style d row = flashing_style (has d.flashing_rows row.incident_id) (
    fading_style (has d.fading_rows row.incident_id)
      (assign "border-left" (border row.confidence) []))
