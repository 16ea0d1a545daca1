-- ===== src/Layout.antt =====
-- The language of the pages (web/src/locales/index.ts) and the button that changes it
-- (web/src/components/AppLayout.vue, `toggleLocale`). The store of the browser is the value that it
-- holds under "mitigador.locale".
use mitigador.Base.{
  String, Option, none, some, if◌then◌else◌, ◌==◌, ◌≡◌, ◌⊎◌, inl, inr, refl, Bool-cases,
}

pub record Locales : Type 0 where
  pub locale : String
  pub stored : Option String

-- The `i18n` that a page creates when it is loaded.
unfoldable pub initial_locale : Option String → String
initial_locale none = "pt-BR"
initial_locale (some s) = s

unfoldable pub create_locales : Option String → Locales
unfolding initial_locale
create_locales stored = record { locale = initial_locale stored; stored = stored }

unfoldable pub set_locale : String → Locales → Locales
set_locale loc s = record { locale = loc; stored = some loc }

unfoldable pub toggle_locale : Locales → Locales
unfolding set_locale
toggle_locale s = set_locale (if s.locale == "pt-BR" then "en-US" else "pt-BR") s

-- Whatever the browser had stored, the button leaves one of the two languages, a page that is loaded
-- again starts in it, and of those two a second press gives the first back.
pub create_locales-toggle_locale :
    (s : Locales)
    → let s' = toggle_locale s in
      (create_locales s'.stored ≡ s')
      × ((s'.locale ≡ "pt-BR") ⊎ (s'.locale ≡ "en-US"))
      × ((toggle_locale (toggle_locale s')).locale ≡ s'.locale)
unfolding create_locales toggle_locale initial_locale set_locale
create_locales-toggle_locale s = elim (Bool-cases (s.locale == "pt-BR")) [
  | inl e ↦ rw e (refl, inr refl, refl)
  | inr e ↦ rw e (refl, inl refl, refl)
]
