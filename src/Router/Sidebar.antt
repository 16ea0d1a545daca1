-- ===== src/Router/Sidebar.antt =====
-- The bar beside every page (web/src/components/SidebarNav.vue): what it shows, and its log-out.
use mitigador.Base.{
  ℕ, String, false, Option, none, some, List, map, ◌≡◌, ◌⊎◌, inl, inr, refl, eqb, if◌then◌else◌,
}
use mitigador.Api.Http.{Result, ok, thrown}
use mitigador.Api.Client.{api}
use mitigador.Api.Client.Errors.{Returns, api-Returns}
use mitigador.Stores.Auth.{User, AuthStore, App, Replies, logout, forget, post_body}
use mitigador.Stores.Incidents.{ActiveAttack, active_count}
use mitigador.Router.{Route, MenuOption, menu_options, route_map}
use mitigador.Router.Menu.{lookup}

-- A link: where it leads, the key of its text, and its badge.
pub record Link : Type 0 where
  pub to : Option String
  pub label : String
  pub badge : Option ℕ

-- `v-if="opt.badge"`: 0 counts as none.
set_badge : Option ℕ → Option ℕ
set_badge none = none
set_badge (some n) = if eqb n 0 then none else some n

unfoldable pub link : MenuOption → Link
unfolding set_badge
link opt = record { to = lookup opt.key route_map; label = opt.label; badge = set_badge opt.badge }

pub record Sidebar : Type 0 where
  pub links : List Link
  pub username : Option String

-- `auth.user?.username`
username_of : Option User → Option String
username_of none = none
username_of (some u) = some u.username

unfoldable pub sidebar : AuthStore → List ActiveAttack → Sidebar
unfolding link menu_options active_count username_of
sidebar auth active = record {
  links = map link (menu_options (active_count active));
  username = username_of auth.user;
}

-- `router.push`, unless the `await` before it throws.
pushed : Result Unit → Option Route
pushed (ok _) = some Route.login
pushed (thrown _) = none

-- `handleLogout`, from its call to its end: where it goes, and the stores that it leaves.
unfoldable pub handle_logout : Replies → App → Option Route × App
unfolding logout pushed
handle_logout net a = let (r, a') = logout net a in (pushed r, a')

-- What a log-out comes to: the server accepted it and the login page is entered, or it failed, the
-- page stays, and nothing moves the visitor.
pub record IsOut (net : Replies) (to : Option Route) (a : App) : Type 0 where
  pub forgotten : (active : List ActiveAttack) → (sidebar a.auth active).username ≡ none
  pub unloaded : a.auth.loaded ≡ false
  pub left_or_stays :
      ((to ≡ some Route.login) × ((v : Option Unit) × Returns net.logout v)) ⊎ (to ≡ none)

pushed-cases :
    (net : Replies) (r : Result (Option Unit))
    → ((v : Option Unit) → r ≡ ok v → Returns net.logout v)
    → ((pushed (forget r) ≡ some Route.login) × ((v : Option Unit) × Returns net.logout v))
      ⊎ (pushed (forget r) ≡ none)
unfolding pushed forget
pushed-cases net (ok v) returned = inl (refl, (v, returned v refl))
pushed-cases net (thrown e) returned = inr refl

-- However its request ends, a log-out leaves a bar without a name and a store that asks for the
-- user again; the login page is opened only if the server accepted the log-out, and else the visitor
-- stays on the page.
handle_logout-IsOut :
    (net : Replies) (a : App) → IsOut net (handle_logout net a).0 (handle_logout net a).1
unfolding handle_logout logout sidebar
handle_logout-IsOut net a = record {
  forgotten = λ active. refl;
  unloaded = refl;
  left_or_stays =
      pushed-cases net (api net.csrf net.logout "/api/auth/logout" (post_body none) a.client).0
        (λ v e. api-Returns net.csrf "/api/auth/logout" (post_body none) a.client net.logout e);
}
