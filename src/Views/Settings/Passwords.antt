-- ===== src/Views/Settings/Passwords.antt =====
-- What the form of a router sends for a password (web/src/views/SettingsMikrotikView.vue).
use mitigador.Base.{
  ℕ, true, false, Option, none, some, ◌≡◌, refl, arith, ◌==◌, if◌then◌else◌, is_some,
}
use mitigador.Api.Http.{Json, bool, str, property}
use mitigador.Api.Mikrotik.{MikrotikRouter, create_json, update_json}
use mitigador.Views.Settings.{
  Settings, FormState, open_edit, refused, update_request, create_request, is_editing,
}

-- A form that `openEdit` fills and that is saved as it is sends the router's own fields and no
-- password, so that the server keeps the old one.
pub update_json-open_edit :
    (r : MikrotikRouter) (s : Settings)
    → let sent = update_json (update_request (open_edit r s).form) in
      (property "name" sent ≡ some (str r.name))
      × (property "url" sent ≡ some (str r.url))
      × (property "username" sent ≡ some (str r.username))
      × (property "verify_tls" sent ≡ some (bool r.verify_tls))
      × (property "enabled" sent ≡ some (bool r.enabled))
      × (property "password" sent ≡ none)
unfolding update_json update_request open_edit
update_json-open_edit r s = (refl, refl, refl, refl, refl, refl)

-- The body of the request that saves a form.
unfoldable pub sent_json : FormState → Json
sent_json form =
    if is_editing form then update_json (update_request form) else create_json (create_request form)

-- A form that is sent carries the password that was typed; without one, which only the form of an
-- existing router can be, it carries none at all.
pub property-sent_json :
    (form : FormState)
    → refused form ≡ none
    → ((form.password == "") ≡ false
        → property "password" (sent_json form) ≡ some (str form.password))
      × ((form.password == "") ≡ true
          → (is_editing form ≡ true) × (property "password" (sent_json form) ≡ none))
unfolding refused create_json update_json update_request create_request sent_json
property-sent_json form h = (λ e. typed form.id e, λ e. (editing form.id e h, absent form.id e h))
  where
    typed :
        (id : Option ℕ)
        → (form.password == "") ≡ false
        → property "password" (sent_json (record form { id = id })) ≡ some (str form.password)
    typed (some id) e = rw e refl
    typed none e = refl

    editing :
        (id : Option ℕ)
        → (form.password == "") ≡ true
        → refused (record form { id = id }) ≡ none
        → is_some id ≡ true
    editing (some id) e k = refl
    editing none e k = ground arith

    absent :
        (id : Option ℕ)
        → (form.password == "") ≡ true
        → refused (record form { id = id }) ≡ none
        → property "password" (sent_json (record form { id = id })) ≡ none
    absent (some id) e k = rw e refl
    absent none e k = ground arith
