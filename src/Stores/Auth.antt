-- ===== src/Stores/Auth.antt =====
-- The store of the signed-in user (web/src/stores/auth.ts); an action
--  runs from its call to its end.
pub mod Sessions
use mitigador.Base.{ℕ, String, Bool, true, false, Option, none, some, if◌then◌else◌}
use mitigador.Api.Http.{Json, str, obj, end, field, post, Reply, Result, ok, thrown}
use mitigador.Api.Client.{CsrfBody, Options, plain, api}
use mitigador.Api.Client.Effects.{Client}

pub record User : Type 0 where
  pub id : ℕ
  pub username : String
  pub email : String

pub record AuthStore : Type 0 where
  pub user : Option User
  pub loaded : Bool

abbrev pub initial : AuthStore
initial = record { user = none; loaded = false }

-- What the network replies to each request of an action.
pub record Replies : Type 0 where
  pub csrf : Reply CsrfBody
  pub me : Reply User
  pub login : Reply Unit
  pub logout : Reply Unit

-- The store and the client that it calls.
pub record App : Type 0 where
  pub auth : AuthStore
  pub client : Client

fetch_user : Replies → Client → Result (Option User) × Client
fetch_user net = api net.csrf net.me "/api/auth/me" plain

-- The assignment in the `try`, and the one in the `catch`.
loaded_user : Result (Option User) → Option User
loaded_user (ok user) = user
loaded_user (thrown _) = none

unfoldable pub ensure_loaded : Replies → App → App
unfolding fetch_user loaded_user
ensure_loaded net a =
    if a.auth.loaded
    then a
    else (let (user, client) = fetch_user net a.client in
        record { auth = record { user = loaded_user user; loaded = true }; client = client })

abbrev credentials : String → String → Json
credentials username password =
    obj (field "username" (str username) (field "password" (str password) end))

abbrev pub post_body : Option Json → Options
post_body body = record { method = post; body = body }

-- The second `await` of `login`: an error leaves the user as it was.
set_user : App → Result (Option User) × Client → Result Unit × App
set_user a (ok user, client) =
    (ok tt, record { auth = record a.auth { user = user }; client = client })
set_user a (thrown e, client) = (thrown e, record a { client = client })

after_login : Replies → App → Result (Option Unit) × Client → Result Unit × App
unfolding fetch_user set_user
after_login net a (ok _, client) = set_user a (fetch_user net client)
after_login net a (thrown e, client) = (thrown e, record a { client = client })

unfoldable pub login : Replies → String → String → App → Result Unit × App
unfolding after_login
login net username password a = after_login net a (
    api net.csrf net.login "/api/auth/login" (post_body (some (credentials username password)))
      a.client)

unfoldable pub forget : Result (Option Unit) → Result Unit
forget (ok _) = ok tt
forget (thrown e) = thrown e

-- The `finally` resets the store; an error goes on to the caller.
unfoldable pub logout : Replies → App → Result Unit × App
unfolding forget
logout net a =
    let (r, client) = api net.csrf net.logout "/api/auth/logout" (post_body none) a.client in
    (forget r, record { auth = initial; client = client })
