-- ===== src/Stores/Auth/Sessions.antt =====
-- What the actions of web/src/stores/auth.ts do to the store, one after another.
use mitigador.Base.{String, false, Option, some, ◌≡◌, ◌⊎◌, inl, inr, arith, refl}
use mitigador.Api.Http.{Result, ok, thrown}
use mitigador.Api.Client.Errors.{Returns, api-Returns}
use mitigador.Api.Client.Effects.{Client}
use mitigador.Stores.Auth.{
  User, App, Replies, fetch_user, loaded_user, set_user, after_login, ensure_loaded, login, logout,
}

-- The user is asked for once: whatever the first answer was, a later `ensureLoaded` sends nothing
-- and changes nothing.
ensure_loaded_once :
    (net net' : Replies) (a : App) → ensure_loaded net' (ensure_loaded net a) ≡ ensure_loaded net a
unfolding ensure_loaded
ensure_loaded_once net net' a = ground arith

loaded_user-Returns :
    (net : Replies) (c : Client) {u : User}
    → loaded_user (fetch_user net c).0 ≡ some u
    → Returns net.me (some u)
unfolding loaded_user fetch_user
loaded_user-Returns net c {u} h = api-Returns net.csrf "/api/auth/me" _ c net.me (by_result _ h)
  where
    by_result : (r : Result (Option User)) → loaded_user r ≡ some u → r ≡ ok (some u)
    by_result (ok v) e = cc
    by_result (thrown e) e' = cc

-- Where no answer was kept, a user in the store is the one that the server has just named.
pub ensure_loaded-Returns :
    (net : Replies) (a : App) {u : User}
    → a.auth.loaded ≡ false
    → (ensure_loaded net a).auth.user ≡ some u
    → Returns net.me (some u)
unfolding ensure_loaded
ensure_loaded-Returns net a {u} h e = loaded_user-Returns net a.client (ground arith)

set_user-ok :
    (a : App) (r : Result (Option User)) (c : Client)
    → (set_user a (r, c)).0 ≡ ok tt
    → r ≡ ok (set_user a (r, c)).1.auth.user
unfolding set_user
set_user-ok a (ok user) c h = refl
set_user-ok a (thrown e) c h = cc

set_user-thrown :
    (a : App) (r : Result (Option User)) (c : Client)
    → ((set_user a (r, c)).0 ≡ ok tt) ⊎ ((set_user a (r, c)).1.auth ≡ a.auth)
unfolding set_user
set_user-thrown a (ok user) c = inl refl
set_user-thrown a (thrown e) c = inr refl

after_login-cases :
    (net : Replies) (a : App) (r : Result (Option Unit)) (c : Client)
    → ((after_login net a (r, c)).0 ≡ ok tt) ⊎ ((after_login net a (r, c)).1.auth ≡ a.auth)
unfolding after_login
after_login-cases net a (ok v) c = set_user-thrown a _ _
after_login-cases net a (thrown e) c = inr refl

after_login-ok :
    (net : Replies) (a : App) (r : Result (Option Unit)) (c : Client)
    → (after_login net a (r, c)).0 ≡ ok tt
    → ((v : Option Unit) × (r ≡ ok v)) × Returns net.me (after_login net a (r, c)).1.auth.user
unfolding after_login fetch_user
after_login-ok net a (ok v) c h =
    ((v, refl), api-Returns net.csrf "/api/auth/me" _ c net.me (set_user-ok a _ _ h))
after_login-ok net a (thrown e) c h = cc

module _ (net : Replies) (username password : String) (a : App) where
  -- A login either succeeds or leaves the store as it was.
  pub login_or_unchanged :
      ((login net username password a).0 ≡ ok tt)
      ⊎ ((login net username password a).1.auth ≡ a.auth)
  unfolding login
  login_or_unchanged = after_login-cases net a _ _

  -- After a successful login, the server has accepted the credentials with a success, and the user
  -- in the store is the one that it then named.
  pub login-Returns :
      (login net username password a).0 ≡ ok tt
      → ((v : Option Unit) × Returns net.login v)
        × Returns net.me (login net username password a).1.auth.user
  unfolding login
  login-Returns h =
      let ((v, e), named) = after_login-ok net a _ _ h in
      ((v, api-Returns net.csrf "/api/auth/login" _ a.client net.login e), named)

-- Whatever the server replies to a logout, the store forgets the user and its answer, so that the
-- next `ensureLoaded` finds a user only if the server names one again.
pub ensure_loaded-logout :
    (net net' : Replies) (a : App) {u : User}
    → (ensure_loaded net' (logout net a).1).auth.user ≡ some u
    → Returns net'.me (some u)
ensure_loaded-logout net net' a {u} h =
    ensure_loaded-Returns net' (logout net a).1 (unfold logout in refl) h
