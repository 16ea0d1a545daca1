-- ===== src/Views/Settings/Form.antt =====
-- The form of a router (web/src/views/SettingsMikrotikView.vue): what it holds, the checks before it
-- is sent, and the requests made of it.
use mitigador.Base.{
  ℕ, String, Bool, true, false, not, ◌&&◌, ◌||◌, Option, none, some, if◌then◌else◌, ◌==◌, is_some,
}
use mitigador.Api.Http.{Thrown, api_error}
use mitigador.Api.Mikrotik.{CreateRouterRequest, UpdateRouterRequest, TestRouterRequest}
use mitigador.Views.Settings.Blank.{is_blank}

pub record FormState : Type 0 where
  pub id : Option ℕ
  pub name : String
  pub url : String
  pub username : String
  pub password : String
  pub verify_tls : Bool
  pub enabled : Bool

abbrev pub empty_form : FormState
empty_form = record {
  id = none;
  name = "";
  url = "https://";
  username = "";
  password = "";
  verify_tls = false;
  enabled = true;
}

pub data FormError : Type 0 where
  required_fields password_required name_taken invalid_param generic : FormError

abbrev pub is_editing : FormState → Bool
is_editing form = is_some form.id

unfoldable pub update_request : FormState → UpdateRouterRequest
update_request form = record {
  name = some form.name;
  url = some form.url;
  username = some form.username;
  password = if form.password == "" then none else some form.password;
  verify_tls = some form.verify_tls;
  enabled = some form.enabled;
}

unfoldable pub create_request : FormState → CreateRouterRequest
create_request form = record {
  name = form.name;
  url = form.url;
  username = form.username;
  password = form.password;
  verify_tls = form.verify_tls;
  enabled = some form.enabled;
}

abbrev pub test_request : FormState → TestRouterRequest
test_request form = record {
  url = form.url;
  username = form.username;
  password = form.password;
  verify_tls = form.verify_tls;
}

-- The two checks of `submit`; `none` is a form that is sent.
unfoldable pub refused : FormState → Option FormError
refused form =
    if is_blank form.name || is_blank form.url || is_blank form.username
    then some required_fields
    else if not (is_editing form) && form.password == ""
    then some password_required
    else none

-- The two checks of `runTest`.
unfoldable pub test_refused : FormState → Option FormError
test_refused form =
    if form.url == "" || form.username == ""
    then some required_fields
    else if form.password == "" && not (is_editing form)
    then some password_required
    else none

-- The `catch` of `submit`.
unfoldable pub form_error_of : Thrown → FormError
form_error_of (api_error e) =
    if e.code == "name_taken"
    then name_taken
    else if e.code == "invalid_param"
    then invalid_param
    else generic
form_error_of _ = generic
