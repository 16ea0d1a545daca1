-- ===== src/Router.antt =====
-- The routes, the guard in front of them, and the menu that leads to them
-- (web/src/router/index.ts, web/src/components/SidebarNav.vue).
pub mod Guard
pub mod Menu
pub mod Sidebar
use mitigador.Base.{
  ℕ, String, Bool, true, false, Option, none, some, is_some, List, [], ◌∷◌, if◌then◌else◌, ltb,
}
use mitigador.Stores.Auth.{AuthStore, App, Replies, ensure_loaded}

-- The routes, by their names.
pub data Route : Type 0 where
  login dashboard flows analytics traffic exporters bgp incidents incident settings_mikrotik : Route

-- `meta.public`
abbrev pub is_public : Route → Bool
is_public login = true
is_public _ = false

-- What a guard answers: go on, or go elsewhere.
pub data Decision : Type 0 where
  proceed : Decision
  redirect : Route → Decision

unfoldable pub before_each : Replies → Route → App → Decision × App
unfolding ensure_loaded
before_each net to a =
    if is_public to
    then (proceed, a)
    else (let a' = ensure_loaded net a in
        (if is_some a'.auth.user then proceed else redirect login, a'))

-- The path of each route.
abbrev pub path : Route → String
path login = "/login"
path dashboard = "/"
path flows = "/flows"
path analytics = "/analytics"
path traffic = "/traffic"
path exporters = "/exporters"
path bgp = "/bgp"
path incidents = "/incidents"
path incident = "/incidents/:id"
path settings_mikrotik = "/settings/mikrotik"

-- The name of each route, as it is written in the table.
abbrev pub name : Route → String
name login = "login"
name dashboard = "dashboard"
name flows = "flows"
name analytics = "analytics"
name traffic = "traffic"
name exporters = "exporters"
name bgp = "bgp"
name incidents = "incidents"
name incident = "incident"
name settings_mikrotik = "settings-mikrotik"

-- An entry of the menu: the key of its label, its own key, and the badge.
pub record MenuOption : Type 0 where
  pub label : String
  pub key : String
  pub badge : Option ℕ

unfoldable pub menu_options : ℕ → List MenuOption
menu_options active =
    record {
      label = "nav.live";
      key = "dashboard";
      badge = if ltb 0 active then some active else none;
    }
    ∷ entry "nav.flows" "flows"
    ∷ entry "nav.analytics" "analytics"
    ∷ entry "nav.traffic" "traffic"
    ∷ entry "nav.exporters" "exporters"
    ∷ entry "nav.bgp" "bgp"
    ∷ entry "nav.incidents" "incidents"
    ∷ entry "nav.settings_mikrotik" "settings-mikrotik"
    ∷ []
  where
    entry : String → String → MenuOption
    entry label key = record { label = label; key = key; badge = none }

-- `routeMap`, the paths by the keys of the menu.
abbrev pub route_map : List (String × String)
route_map =
    ("dashboard", "/")
    ∷ ("flows", "/flows")
    ∷ ("analytics", "/analytics")
    ∷ ("traffic", "/traffic")
    ∷ ("exporters", "/exporters")
    ∷ ("bgp", "/bgp")
    ∷ ("incidents", "/incidents")
    ∷ ("settings-mikrotik", "/settings/mikrotik")
    ∷ []
