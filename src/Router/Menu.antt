-- ===== src/Router/Menu.antt =====
-- The menu and the table of routes (web/src/components/SidebarNav.vue, web/src/router/index.ts).
use mitigador.Base.{
  ℕ, String, false, Option, none, some, List, [], ◌∷◌, ◌≡◌, All, if◌then◌else◌, ◌==◌, refl,
}
use mitigador.Router.{Route, is_public, path, name, menu_options, route_map}

-- `routeMap[key]`
abbrev pub lookup : String → List (String × String) → Option String
lookup key [] = none
lookup key ((k, v) ∷ m) = if k == key then some v else lookup key m

-- A key that leads to a route of that name, which is not the login page.
record LeadsTo (key : String) (to : Route) : Type 0 where
  pub named : name to ≡ key
  pub linked : lookup key route_map ≡ some (path to)
  pub private : is_public to ≡ false

-- Whatever the number of active attacks, every entry of the menu leads to a declared route: the one
-- with the entry's key for a name, which is not public.
menu_options-LeadsTo :
    (active : ℕ) → All (λ o. (to : Route) × LeadsTo o.key to) (menu_options active)
unfolding menu_options
menu_options-LeadsTo active = (
  (Route.dashboard, record { named = refl; linked = refl; private = refl }),
  (
    (Route.flows, record { named = refl; linked = refl; private = refl }),
    (
      (Route.analytics, record { named = refl; linked = refl; private = refl }),
      (
        (Route.traffic, record { named = refl; linked = refl; private = refl }),
        (
          (Route.exporters, record { named = refl; linked = refl; private = refl }),
          (
            (Route.bgp, record { named = refl; linked = refl; private = refl }),
            (
              (Route.incidents, record { named = refl; linked = refl; private = refl }),
              (
                (Route.settings_mikrotik, record { named = refl; linked = refl; private = refl }),
                tt,
              ),
            ),
          ),
        ),
      ),
    ),
  ),
)
