-- ===== src/Tests/Pages.antt =====
-- Runs of the pages of the routers, the incidents, the exporters and the login.
use mitigador.Base.{true, false, none, some, List, [], ◌∷◌, ◌≡◌, ◌⊎◌, refl, ◌==◌}
use mitigador.Base.Decimal.{show}
use mitigador.Api.Http.{Reply, rejected, responded, blank, json, str, property, thrown, type_error}
use mitigador.Api.Mikrotik.{MikrotikRouter}
use mitigador.Api.Client.{CsrfBody, plain, api}
use mitigador.Api.Client.Effects.{fresh}
use mitigador.Stores.Auth.{App, Replies}
use mitigador.Views.Settings.{
  Settings, FormState, FormError, Net, initial, empty_form, refused, submit, submit_checked,
  is_editing,
}
use mitigador.Views.Settings.Events.{Event, showing, editing, run}
use mitigador.Views.Settings.Blank.{is_blank}
use mitigador.Views.Settings.Submit.{IsDone, submit_lem}
use mitigador.Views.Settings.Passwords.{sent_json, property-sent_json}
use mitigador.Views.IncidentList.{IncidentPage}
use mitigador.Views.IncidentDetail.{
  IncidentDetail, IsAnswer, incident_path, load_incident, load_incident_lem, shown,
}
use mitigador.Views.IncidentDetail as Detail
use mitigador.Views.Login.{Login, IsEnded, disabled, handle_submit}
use mitigador.Views.Login as Login

abbrev granting : Reply CsrfBody
granting = responded (record { status = 200; text = json (record { token = "t1" }) none })

abbrev net : Net
net = record {
  csrf = granting;
  list = rejected;
  save = responded (record { status = 409; text = blank });
  removal = rejected;
  test = rejected;
}

abbrev other : MikrotikRouter
other = record {
  id = 2;
  name = "BR2";
  url = "10.0.0.2";
  username = "u";
  has_password = true;
  verify_tls = false;
  enabled = true;
  created_at = "";
  updated_at = "";
}

abbrev typed : FormState
typed = record empty_form { name = "BR1"; username = "u"; password = "p" }

abbrev filled : Settings
filled = record initial { form = typed; modal_open = true }

-- The dialog is cancelled, and opened again for another router, before the reply comes.
abbrev meanwhile : List Event
meanwhile = showing false ∷ editing other ∷ []

goes_out : (submit filled).1 ≡ some typed
unfolding submit submit_checked refused is_blank
goes_out = refl

submit_lem_example :
    ((e : FormError) × (refused typed ≡ some e)
      × (submit filled ≡ (record filled { form_error = some e }, none)))
    ⊎ ((refused typed ≡ none)
        × (submit filled ≡ (record filled { form_error = none; submitting = true }, some typed))
        × IsDone show net typed fresh (run meanwhile (submit filled).0) [] (thrown type_error))
submit_lem_example = submit_lem show net filled fresh meanwhile [] (thrown type_error)

property-sent_json_example :
    (("p" == "") ≡ false → property "password" (sent_json typed) ≡ some (str "p"))
    × (("p" == "") ≡ true
        → (is_editing typed ≡ true) × (property "password" (sent_json typed) ≡ none))
property-sent_json_example = property-sent_json typed (unfold refused is_blank in refl)

abbrev one : IncidentPage
one = record { items = []; total = 60 }

abbrev two : IncidentPage
two = record { items = []; total = 61 }

abbrev missing : Reply IncidentDetail
missing = responded (record { status = 404; text = blank })

load_incident_lem_example :
    IsAnswer missing
      (api granting missing (incident_path "x") plain fresh).0
      (shown (load_incident granting missing "x" Detail.initial fresh).0)
load_incident_lem_example = load_incident_lem granting missing "x" Detail.initial fresh

abbrev refusing : Replies
refusing = record {
  csrf = granting;
  me = rejected;
  login = responded (record { status = 401; text = blank });
  logout = rejected;
}

abbrev attempt : Login
attempt = record Login.initial { username = "ann"; password = "pw" }

abbrev visitor : App
visitor = record { auth = record { user = none; loaded = true }; client = fresh }
