-- ===== src/Views/Settings/Events.antt =====
-- What may happen to the page of the routers, one event after the other
-- (web/src/views/SettingsMikrotikView.vue, its handlers and its template).
use mitigador.Base.{Bool, List, [], ◌∷◌, Option}
use mitigador.Api.Http.{Result}
use mitigador.Api.Mikrotik.{MikrotikRouter, RouterItems, TestRouterResponse}
use mitigador.Views.Settings.{
  Settings, FormState, Toast, open_create, open_edit, submit, saved, loaded, reloaded, run_test,
  tested, removed, toggled,
}

-- Clicks on the buttons, `showing` for what the dialog writes to `modalOpen` (its Cancel and its
-- close write false), `typing` for what the inputs write, and the ends of the requests. The list
-- that `submit` asks for ends in `reload_ends`.
pub data Event : Type 0 where
  creating submitting testing : Event
  editing : MikrotikRouter → Event
  showing : Bool → Event
  typing : FormState → Event
  load_ends reload_ends : Result RouterItems → Event
  save_ends : Result Toast → Event
  test_ends : Result TestRouterResponse → Event
  removal_ends : Result (Option Unit) → Event
  toggle_ends : Result (Option MikrotikRouter) → Event

-- `v-model:show` of the dialog, and the button `Cancel` with false.
unfoldable pub show_modal : Bool → Settings → Settings
show_modal visible s = record s { modal_open = visible }

-- The inputs write every field but the identifier.
unfoldable pub type_form : FormState → Settings → Settings
type_form fields s = record s { form = record fields { id = s.form.id } }

unfoldable pub step : Event → Settings → Settings
unfolding show_modal type_form open_create open_edit submit saved loaded reloaded run_test tested
    removed toggled
step creating s = open_create s
step submitting s = (submit s).0
step testing s = (run_test s).0
step (editing r) s = open_edit r s
step (showing visible) s = show_modal visible s
step (typing fields) s = type_form fields s
step (load_ends r) s = loaded r s
step (reload_ends r) s = reloaded r s
step (save_ends r) s = (saved r s).0
step (test_ends r) s = tested r s
step (removal_ends r) s = (removed r s).0
step (toggle_ends r) s = (toggled r s).0

unfoldable pub run : List Event → Settings → Settings
unfolding step
run [] s = s
run (e ∷ events) s = run events (step e s)
