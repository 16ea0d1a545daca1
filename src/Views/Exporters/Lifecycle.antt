-- ===== src/Views/Exporters/Lifecycle.antt =====
-- The interval of the page of the exporters (web/src/views/ExportersView.vue).
use mitigador.Base.{ℕ, true, false, Option, none, some, List, ◌≡◌, refl}
use mitigador.Api.Http.{Result, ok, thrown}
use mitigador.Browser.{runs, set_interval, clear_interval}
use mitigador.Views.Exporters.{
  Exporters, Exporter, initial, load_exporters, exporters_done, mount, mounted, unmount,
}

-- The first reply, and what `onMounted` does next.
abbrev pub first_reply : Result (Option (List Exporter)) → Exporters → Exporters
first_reply r p = mounted (exporters_done r p)

-- A page that is left after its first reply leaves no interval running; one that is left before it
-- starts its interval when the reply comes, and nothing stops it.
unmount_order_exporters :
    (r : Result (Option (List Exporter)))
    → ((t : ℕ) → runs t (unmount (first_reply r (mount initial))).intervals ≡ false)
      × (runs 1 (first_reply r (unmount (mount initial))).intervals ≡ true)
unfolding unmount exporters_done mounted mount load_exporters set_interval clear_interval runs
unmount_order_exporters (ok (some items)) = (λ t. refl, refl)
unmount_order_exporters (ok none) = (λ t. refl, refl)
unmount_order_exporters (thrown e) = (λ t. refl, refl)
