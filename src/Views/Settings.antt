-- ===== src/Views/Settings.antt =====
-- The page of the routers (web/src/views/SettingsMikrotikView.vue): its state and its handlers, each
-- cut at its `await`s. What runs up to an `await` and what runs after it are functions of their own,
-- the latter with what the call ended in as an argument; Views.Settings.Events puts them in order.
mod Form
pub mod Blank
pub mod Events
pub mod Submit
pub mod Passwords
pub mod Shown
use mitigador.Base.{
  ℕ, String, Bool, true, false, not, ◌&&◌, ◌||◌, Option, none, some, List, [], ◌∷◌, ◌++◌,
  if◌then◌else◌, ◌==◌, is_some,
}
use mitigador.Api.Http.{Reply, Result, ok, thrown, Thrown, api_error}
use mitigador.Api.Client.{CsrfBody}
use mitigador.Api.Client.Effects.{Client, Exec, ◌>>=◌, pure, defined}
use mitigador.Api.Mikrotik.{
  MikrotikRouter, RouterItems, CreateRouterRequest, UpdateRouterRequest, TestRouterRequest,
  TestRouterResponse, fetch_mikrotik_routers, create_mikrotik_router, update_mikrotik_router,
  delete_mikrotik_router, test_mikrotik_router,
}
pub use Form.{
  FormState, empty_form, FormError, required_fields, password_required, name_taken, invalid_param,
  generic, is_editing, test_request,
}
unfoldable pub use Form.{update_request, create_request, refused, test_refused, form_error_of}

-- The text of a test: an error of the form, the router's name, the server's text, or one of two
-- fixed texts.
pub data TestText : Type 0 where
  form_text : FormError → TestText
  identity_text server_text : String → TestText
  fail_generic fail_network : TestText

pub record TestResult : Type 0 where
  pub passed : Bool
  pub text : TestText

pub data Toast : Type 0 where
  updated created deleted delete_failed toggle_failed : Toast

pub record Settings : Type 0 where
  pub routers : List MikrotikRouter
  pub loading : Bool
  pub fetch_error : Bool
  pub modal_open : Bool
  pub form : FormState
  pub form_error : Option FormError
  pub submitting : Bool
  pub testing : Bool
  pub test_result : Option TestResult
  -- What `message` has shown, the latest last.
  pub toasts : List Toast

abbrev pub initial : Settings
initial = record {
  routers = [];
  loading = true;
  fetch_error = false;
  modal_open = false;
  form = empty_form;
  form_error = none;
  submitting = false;
  testing = false;
  test_result = none;
  toasts = [];
}

-- The replies to a handler's requests.
pub record Net : Type 0 where
  pub csrf : Reply CsrfBody
  pub list : Reply RouterItems
  pub save : Reply MikrotikRouter
  pub removal : Reply Unit
  pub test : Reply TestRouterResponse

unfoldable pub open_create : Settings → Settings
open_create s = record s {
  form = empty_form;
  form_error = none;
  test_result = none;
  modal_open = true;
}

unfoldable pub open_edit : MikrotikRouter → Settings → Settings
open_edit r s = record s {
  form = record {
    id = some r.id;
    name = r.name;
    url = r.url;
    username = r.username;
    password = "";
    verify_tls = r.verify_tls;
    enabled = r.enabled;
  };
  form_error = none;
  test_result = none;
  modal_open = true;
}

abbrev toast : Toast → Settings → Settings
toast t s = record s { toasts = s.toasts ++ t ∷ [] }

abbrev shows : Settings → Bool → TestText → Settings
shows s passed text = record s { test_result = some (record { passed = passed; text = text }) }

test_texts : TestRouterResponse → TestResult
test_texts resp =
    if resp.ok
    then record { passed = true; text = identity_text (or_empty resp.identity) }
    else record { passed = false; text = failure resp.error }
  where
    or_empty : Option String → String
    or_empty none = ""
    or_empty (some s) = s

    failure : Option String → TestText
    failure none = fail_generic
    failure (some s) = server_text s

-- `load` once its request has ended.
unfoldable pub loaded : Result RouterItems → Settings → Settings
loaded (ok resp) s = record s { routers = resp.items; fetch_error = false; loading = false }
loaded (thrown _) s = record s { fetch_error = true; loading = false }

unfoldable pub submit_checked : Option FormError → Settings → Settings × Option FormState
submit_checked (some e) s = (record s { form_error = some e }, none)
submit_checked none s = (record s { form_error = none; submitting = true }, some s.form)

-- `submit` up to its `await`, with the form that it sends, if it sends one.
unfoldable pub submit : Settings → Settings × Option FormState
unfolding refused submit_checked
submit s = submit_checked (refused s.form) s

-- `submit` once its request has ended, and whether the list is then loaded.
unfoldable pub saved : Result Toast → Settings → Settings × Bool
unfolding form_error_of
saved (ok t) s = (record (toast t s) { modal_open = false }, true)
saved (thrown e) s = (record s { form_error = some (form_error_of e); submitting = false }, false)

-- `submit` once the list has been loaded.
unfoldable pub reloaded : Result RouterItems → Settings → Settings
unfolding loaded
reloaded r s = record (loaded r s) { submitting = false }

test_checked : Option FormError → Settings → Settings × Option FormState
test_checked (some e) s = (shows s false (form_text e), none)
test_checked none s = (record s { test_result = none; testing = true }, some s.form)

-- `runTest` up to its `await`, with the form whose router it tests, if it tests one.
unfoldable pub run_test : Settings → Settings × Option FormState
unfolding test_refused test_checked
run_test s = test_checked (test_refused s.form) s

unfoldable pub tested : Result TestRouterResponse → Settings → Settings
unfolding test_texts
tested (ok resp) s = record s { test_result = some (test_texts resp); testing = false }
tested (thrown _) s = record (shows s false fail_network) { testing = false }

-- `removeRouter` and `toggleEnabled` once their request has ended, and whether the list is then
-- loaded.
unfoldable pub removed : Result (Option Unit) → Settings → Settings × Bool
removed (ok _) s = (toast deleted s, true)
removed (thrown _) s = (toast delete_failed s, false)

unfoldable pub toggled : Result (Option MikrotikRouter) → Settings → Settings × Bool
toggled (ok _) s = (s, true)
toggled (thrown _) s = (toast toggle_failed s, false)

abbrev enabled_request : Bool → UpdateRouterRequest
enabled_request enabled = record {
  name = none;
  url = none;
  username = none;
  password = none;
  verify_tls = none;
  enabled = some enabled;
}

-- The requests of the handlers, with what they end in.
module _ (show : ℕ → String) (net : Net) where
  unfoldable pub load : Exec RouterItems
  load = do found ← fetch_mikrotik_routers net.csrf net.list; defined found

  -- The request of `submit`, with the toast that follows it.
  unfoldable pub save : FormState → Option ℕ → Exec Toast
  unfolding update_request create_request
  save form (some id) = do
    _ ← update_mikrotik_router net.csrf show net.save id (update_request form)
    pure updated
  save form none = do
    _ ← create_mikrotik_router net.csrf net.save (create_request form)
    pure created

  unfoldable pub test_router : FormState → Exec TestRouterResponse
  test_router form = do
    found ← test_mikrotik_router net.csrf net.test (test_request form)
    defined found

  unfoldable pub remove_router : MikrotikRouter → Exec (Option Unit)
  remove_router r = delete_mikrotik_router net.csrf show net.removal r.id

  unfoldable pub toggle_enabled : MikrotikRouter → Exec (Option MikrotikRouter)
  toggle_enabled r =
      update_mikrotik_router net.csrf show net.save r.id (enabled_request (not r.enabled))
