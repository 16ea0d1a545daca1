-- ===== src/Views/Settings/Shown.antt =====
-- What the page of the routers and its dialog show (the template of
-- web/src/views/SettingsMikrotikView.vue).
use mitigador.Base.{
  ℕ, String, Bool, Option, none, some, List, [], ◌∷◌, map, if◌then◌else◌, ◌≡◌, refl,
}
use mitigador.Api.Http.{Result, ok, thrown}
use mitigador.Api.Client.Effects.{Client, >>=-eq-ok, defined-ok}
use mitigador.Api.Client.Errors.{Returns, api-Returns}
use mitigador.Api.Mikrotik.{MikrotikRouter, RouterItems, fetch_mikrotik_routers}
use mitigador.Views.Settings.{
  Settings, Net, FormError, FormState, TestText, TestResult, is_editing, load, loaded, open_edit,
  open_create,
}

-- A line of the table; `asked` is the name in the question before a router is deleted.
pub record Row : Type 0 where
  pub enabled : Bool
  pub name : String
  pub url : String
  pub username : String
  pub asked : String

unfoldable pub row : MikrotikRouter → Row
row r = record {
  enabled = r.enabled;
  name = r.name;
  url = r.url;
  username = r.username;
  asked = r.name;
}

pub data Shown : Type 0 where
  spinner warning empty : Shown
  table : List Row → Shown

unfoldable pub shown_rows : List MikrotikRouter → Shown
unfolding row
shown_rows [] = empty
shown_rows (r ∷ rs) = table (map row (r ∷ rs))

unfoldable pub shown : Settings → Shown
unfolding shown_rows
shown s = if s.loading then spinner else if s.fetch_error then warning else shown_rows s.routers

-- The alert below the form for the result of a test.
pub data TestAlert : Type 0 where
  success warning : TestText → TestAlert

unfoldable pub test_alert : TestResult → TestAlert
test_alert t = if t.passed then success t.text else warning t.text

abbrev alert_of : Option TestResult → Option TestAlert
unfolding test_alert
alert_of none = none
alert_of (some t) = some (test_alert t)

-- The dialog, with the keys of its texts.
pub record Dialog : Type 0 where
  pub title : String
  pub fields : FormState
  pub password_label : String
  pub password_hint : Option String
  pub error : Option FormError
  pub test : Option TestAlert
  pub test_spins : Bool
  pub button : String
  pub button_spins : Bool

unfoldable pub dialog : Settings → Option Dialog
unfolding test_alert
dialog s =
    let editing = is_editing s.form in
    if s.modal_open
    then some (record {
      title =
          if editing
          then "settings_mikrotik.modal.edit_title"
          else "settings_mikrotik.modal.create_title";
      fields = s.form;
      password_label =
          if editing
          then "settings_mikrotik.form.password_optional"
          else "settings_mikrotik.form.password";
      password_hint = if editing then some "settings_mikrotik.form.password_keep_hint" else none;
      error = s.form_error;
      test = alert_of s.test_result;
      test_spins = s.testing;
      button = if editing then "settings_mikrotik.save" else "settings_mikrotik.create";
      button_spins = s.submitting;
    })
    else none

-- What a page has to show for the reply to its request for the list.
pub data IsListed (net : Net) : Shown → Type 0 where
  listed :
      {resp : RouterItems} → Returns net.list (some resp) → IsListed net (shown_rows resp.items)
  failed : IsListed net warning

loaded-IsListed :
    (net : Net) (s : Settings) (r : Result RouterItems)
    → ((resp : RouterItems) → r ≡ ok resp → Returns net.list (some resp))
    → IsListed net (shown (loaded r s))
unfolding loaded shown
loaded-IsListed net s (ok resp) returned = listed (returned resp refl)
loaded-IsListed net s (thrown e) returned = failed

listed-Returns :
    (show : ℕ → String) (net : Net) (c : Client) {resp : RouterItems}
    → (load show net c).0 ≡ ok resp
    → Returns net.list (some resp)
unfolding load fetch_mikrotik_routers
listed-Returns show net c h =
    let (found, e, h') = >>=-eq-ok (fetch_mikrotik_routers net.csrf net.list) _ c h in
    rw (← defined-ok found _ h') (api-Returns net.csrf "/api/mikrotik/routers" _ c net.list e)

-- However its request ends, and whatever the page shows then, a load leaves it without its spinner:
-- it shows the list that the server returned, or that there is none, after a success only, and else
-- a warning.
pub shown-loaded :
    (show : ℕ → String) (net : Net) (c : Client) (s : Settings)
    → IsListed net (shown (loaded (load show net c).0 s))
shown-loaded show net c s =
    loaded-IsListed net s (load show net c).0 (λ resp e. listed-Returns show net c e)

-- The dialog of a router's edit shows the router without its password, under the hint that an empty
-- one is kept, and the dialog of a new one shows no hint; neither shows what the last one ended in.
pub dialog-open :
    (r : MikrotikRouter) (s : Settings)
    → ((d : Dialog) × (dialog (open_edit r s) ≡ some d)
        × (d.fields.id ≡ some r.id)
        × (d.fields.password ≡ "")
        × (d.password_hint ≡ some "settings_mikrotik.form.password_keep_hint")
        × (d.error ≡ none)
        × (d.test ≡ none))
      × ((d : Dialog) × (dialog (open_create s) ≡ some d)
          × (d.fields.id ≡ none)
          × (d.password_hint ≡ none)
          × (d.error ≡ none)
          × (d.test ≡ none))
unfolding dialog open_edit open_create
dialog-open r s = ((_, refl, refl, refl, refl, refl, refl), (_, refl, refl, refl, refl, refl))
