-- ===== src/Router/Guard.antt =====
-- What the guard of the router lets through (web/src/router/index.ts).
use mitigador.Base.{false, some, ◌≡◌, arith, is_some, ◌||◌, if◌then◌else◌}
use mitigador.Api.Client.Errors.{Returns}
use mitigador.Stores.Auth.{User, App, Replies, ensure_loaded, logout}
use mitigador.Stores.Auth.Sessions.{ensure_loaded-logout, ensure_loaded-Returns}
use mitigador.Router.{Route, is_public, proceed, redirect, before_each, login}

-- A route is entered exactly if it is public or the guard leaves a user in the store; otherwise the
-- visitor is sent to the login page.
before_each_decides :
    (net : Replies) (to : Route) (a : App)
    → (before_each net to a).0 ≡ (
        if is_public to || is_some (before_each net to a).1.auth.user
        then proceed
        else redirect login)
unfolding before_each
before_each_decides net to a = ground arith

before_each-user :
    (net : Replies) (to : Route) (a : App)
    → is_public to ≡ false
    → (before_each net to a).0 ≡ proceed
    → (u : User) × ((ensure_loaded net a).auth.user ≡ some u)
unfolding before_each
before_each-user net to a private h = ground arith

-- A route that is not public is entered, where no answer was kept,
-- only if the server has named a user.
pub before_each-Returns :
    (net : Replies) (to : Route) (a : App)
    → is_public to ≡ false
    → a.auth.loaded ≡ false
    → (before_each net to a).0 ≡ proceed
    → (u : User) × Returns net.me (some u)
before_each-Returns net to a private unloaded h =
    let (u, e) = before_each-user net to a private h in (u, ensure_loaded-Returns net a unloaded e)

-- After a logout a private route is entered only if the server has named a user again.
before_each-logout :
    (net net' : Replies) (to : Route) (a : App)
    → is_public to ≡ false
    → (before_each net' to (logout net a).1).0 ≡ proceed
    → (u : User) × Returns net'.me (some u)
before_each-logout net net' to a private h =
    let (u, e) = before_each-user net' to (logout net a).1 private h in
    (u, ensure_loaded-logout net net' a e)
