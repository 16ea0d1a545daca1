-- ===== src/Api/Mikrotik.antt =====
-- The requests of web/src/api/mikrotik.ts. A router's number is printed by `show`.
use Prim.Native.String
use mitigador.Base.{ℕ, String, Bool, Option, none, some, List}
use mitigador.Api.Http.{Json, bool, str, obj, Fields, end, field, post, patch, delete, Reply}
use mitigador.Api.Client.{CsrfBody, plain, api}
use mitigador.Api.Client.Effects.{Exec}

pub record MikrotikRouter : Type 0 where
  pub id : ℕ
  pub name : String
  pub url : String
  pub username : String
  pub has_password : Bool
  pub verify_tls : Bool
  pub enabled : Bool
  pub created_at : String
  pub updated_at : String

pub record CreateRouterRequest : Type 0 where
  pub name : String
  pub url : String
  pub username : String
  pub password : String
  pub verify_tls : Bool
  pub enabled : Option Bool

pub record UpdateRouterRequest : Type 0 where
  pub name : Option String
  pub url : Option String
  pub username : Option String
  pub password : Option String
  pub verify_tls : Option Bool
  pub enabled : Option Bool

pub record TestRouterRequest : Type 0 where
  pub url : String
  pub username : String
  pub password : String
  pub verify_tls : Bool

pub record TestRouterResponse : Type 0 where
  pub ok : Bool
  pub identity : Option String
  pub error : Option String

pub record RouterItems : Type 0 where
  pub items : List MikrotikRouter

-- `JSON.stringify` leaves out what is `undefined`.
abbrev pub text_field : String → Option String → Fields → Fields
text_field key none rest = rest
text_field key (some s) rest = field key (str s) rest

abbrev pub flag_field : String → Option Bool → Fields → Fields
flag_field key none rest = rest
flag_field key (some b) rest = field key (bool b) rest

unfoldable pub create_json : CreateRouterRequest → Json
create_json r = obj (
    text_field "name" (some r.name) (
      text_field "url" (some r.url) (
        text_field "username" (some r.username) (
          text_field "password" (some r.password)
            (flag_field "verify_tls" (some r.verify_tls) (flag_field "enabled" r.enabled end))))))

unfoldable pub update_json : UpdateRouterRequest → Json
update_json r = obj (
    text_field "name" r.name (
      text_field "url" r.url (
        text_field "username" r.username (
          text_field "password" r.password
            (flag_field "verify_tls" r.verify_tls (flag_field "enabled" r.enabled end))))))

unfoldable pub test_json : TestRouterRequest → Json
test_json r = obj (
    text_field "url" (some r.url) (
      text_field "username" (some r.username) (
        text_field "password" (some r.password) (flag_field "verify_tls" (some r.verify_tls) end))))

abbrev pub router_path : (ℕ → String) → ℕ → String
router_path show id = String.◌++◌ "/api/mikrotik/routers/" (show id)

module _ (csrf : Reply CsrfBody) where
  unfoldable pub fetch_mikrotik_routers : Reply RouterItems → Exec (Option RouterItems)
  fetch_mikrotik_routers reply = api csrf reply "/api/mikrotik/routers" plain

  unfoldable pub create_mikrotik_router :
      Reply MikrotikRouter → CreateRouterRequest → Exec (Option MikrotikRouter)
  unfolding create_json
  create_mikrotik_router reply req =
      api csrf reply "/api/mikrotik/routers"
        (record { method = post; body = some (create_json req) })

  unfoldable pub update_mikrotik_router :
      (ℕ → String) → Reply MikrotikRouter → ℕ → UpdateRouterRequest → Exec (Option MikrotikRouter)
  unfolding update_json
  update_mikrotik_router show reply id req =
      api csrf reply (router_path show id)
        (record { method = patch; body = some (update_json req) })

  unfoldable pub delete_mikrotik_router : (ℕ → String) → Reply Unit → ℕ → Exec (Option Unit)
  delete_mikrotik_router show reply id =
      api csrf reply (router_path show id) (record { method = delete; body = none })

  unfoldable pub test_mikrotik_router :
      Reply TestRouterResponse → TestRouterRequest → Exec (Option TestRouterResponse)
  unfolding test_json
  test_mikrotik_router reply req =
      api csrf reply "/api/mikrotik/routers/test"
        (record { method = post; body = some (test_json req) })
