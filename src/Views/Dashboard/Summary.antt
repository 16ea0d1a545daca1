-- ===== src/Views/Dashboard/Summary.antt =====
-- The figures at the top of the live page (web/src/views/DashboardView.vue, `loadSummary`).
use Prim.Native.String
use mitigador.Base.{
  ℕ, String, true, false, none, some, List, keep, length, ◌==◌, ◌≡◌, ◌⊎◌, inl, inr, refl,
}
use mitigador.Api.Http.{Reply, Result, ok, thrown}
use mitigador.Api.Client.{CsrfBody, plain, api}
use mitigador.Api.Client.Effects.{Client, Exec, ◌>>=◌, >>=-eq-ok, pure, defined, defined-ok}
use mitigador.Api.Client.Errors.{Returns, api-Returns}
use mitigador.Stores.Incidents.{IncidentsStore, IncidentListResponse, load_active_snapshot}
use mitigador.Views.Dashboard.{Dashboard}

-- The replies to `loadSummary`, in the order of its requests.
pub record Summary : Type 0 where
  pub csrf : Reply CsrfBody
  pub snapshot : Reply IncidentListResponse
  pub exporters : Reply (List String)
  pub today : Reply ℕ
  -- `midnight.toISOString()`
  pub midnight : String

fetch_online : Summary → Exec ℕ
fetch_online net = do
  found ← api net.csrf net.exporters "/api/exporters" plain
  statuses ← defined found
  pure (length (keep (λ status. status == "online") statuses))

today_path : String → String
today_path midnight = String.◌++◌ (String.◌++◌ "/api/incidents?since=" midnight) "&limit=1"

fetch_today : Summary → Exec ℕ
unfolding today_path
fetch_today net = do found ← api net.csrf net.today (today_path net.midnight) plain; defined found

-- The rest of the `try` from the number of today's alerts on, and the `catch`.
with_today : Dashboard → Result ℕ → Dashboard
with_today d (ok total) = record d { alerts_today = total }
with_today d (thrown _) = record d { snapshot_error = some "error" }

with_online : Summary → Dashboard → Result ℕ → Client → Dashboard × Client
unfolding fetch_today with_today
with_online net d (ok online) c =
    let (r, c') = fetch_today net c in (with_today (record d { exporters_online = online }) r, c')
with_online net d (thrown _) c = (record d { snapshot_error = some "error" }, c)

after_snapshot : Summary → Dashboard → IncidentsStore × Client → Dashboard × Client
unfolding fetch_online with_online
after_snapshot net d (store, c) =
    let (r, c') = fetch_online net c in with_online net (record d { store = store }) r c'

-- `loadSummary`, from its call to its end, with its `finally`.
unfoldable pub load_summary : Summary → Dashboard → Client → Dashboard × Client
unfolding after_snapshot
load_summary net d c =
    let d' = record d { loading_snapshot = true; snapshot_error = none } in
    let (d'', c') = after_snapshot net d' (load_active_snapshot net.csrf net.snapshot d.store c) in
    (record d'' { loading_snapshot = false }, c')

abbrev pub online_count : List String → ℕ
online_count statuses = length (keep (λ status. status == "online") statuses)

-- The figures that a load without an error leaves on the page are those of two successful replies.
pub record IsShown (net : Summary) (d : Dashboard) : Type 0 where
  pub statuses : List String
  pub exporters : Returns net.exporters (some statuses)
  pub online : d.exporters_online ≡ online_count statuses
  pub today : Returns net.today (some d.alerts_today)

fetch_today-Returns :
    (net : Summary) (c : Client) {n : ℕ} → (fetch_today net c).0 ≡ ok n → Returns net.today (some n)
unfolding fetch_today
fetch_today-Returns net c h =
    let (found, e, h') = >>=-eq-ok (api net.csrf net.today (today_path net.midnight) plain) _ c h in
    rw (← defined-ok found _ h')
      (api-Returns net.csrf (today_path net.midnight) plain c net.today e)

fetch_online-Returns :
    (net : Summary) (c : Client) {n : ℕ}
    → (fetch_online net c).0 ≡ ok n
    → (statuses : List String) × Returns net.exporters (some statuses) × (n ≡ online_count statuses)
unfolding fetch_online
fetch_online-Returns net c h =
    let (found, e, h') = >>=-eq-ok (api net.csrf net.exporters "/api/exporters" plain) _ c h in
    let (statuses, e', h'') = >>=-eq-ok (defined found) _ _ h' in
    (
      statuses,
      rw (← defined-ok found _ e') (api-Returns net.csrf "/api/exporters" plain c net.exporters e),
      cc,
    )

with_online-cases :
    (net : Summary) (d : Dashboard) (r : Result ℕ) (c : Client)
    → d.snapshot_error ≡ none
    → ((n : ℕ)
        → r ≡ ok n
        → (l : List String) × Returns net.exporters (some l) × (n ≡ online_count l))
    → ((with_online net d r c).0.snapshot_error ≡ some "error")
      ⊎ (((with_online net d r c).0.snapshot_error ≡ none) × IsShown net (with_online net d r c).0)
unfolding with_online
with_online-cases net d (thrown e) c clean found = inl refl
with_online-cases net d (ok n) c clean found = by_result (fetch_today net c).0 refl (found n refl)
  where
    by_result :
        (r : Result ℕ)
        → (fetch_today net c).0 ≡ r
        → (l : List String) × Returns net.exporters (some l) × (n ≡ online_count l)
        → let d' = with_today (record d { exporters_online = n }) r in
          (d'.snapshot_error ≡ some "error") ⊎ ((d'.snapshot_error ≡ none) × IsShown net d')
    by_result (thrown e) h found = inl refl
    by_result (ok total) h (l, returned, count) = inr (
      clean,
      record {
        statuses = l;
        exporters = returned;
        online = count;
        today = fetch_today-Returns net c h;
      },
    )

after_snapshot-cases :
    (net : Summary) (d : Dashboard) (p : IncidentsStore × Client)
    → d.snapshot_error ≡ none
    → ((after_snapshot net d p).0.snapshot_error ≡ some "error")
      ⊎ (((after_snapshot net d p).0.snapshot_error ≡ none)
          × IsShown net (after_snapshot net d p).0)
unfolding after_snapshot
after_snapshot-cases net d (store, c) clean =
    with_online-cases net (record d { store = store }) (fetch_online net c).0 (fetch_online net c).1
      clean (λ n e. fetch_online-Returns net c e)

loaded-IsShown :
    (net : Summary) (d : Dashboard)
    → (d.snapshot_error ≡ some "error") ⊎ ((d.snapshot_error ≡ none) × IsShown net d)
    → let d' = record d { loading_snapshot = false } in
      (d'.snapshot_error ≡ some "error") ⊎ ((d'.snapshot_error ≡ none) × IsShown net d')
loaded-IsShown net d (inl e) = inl e
loaded-IsShown net d (inr (e, h)) = inr (
  e,
  record { statuses = h.statuses; exporters = h.exporters; online = h.online; today = h.today },
)

-- However the requests end, a load is over when it ends, and it either shows an error or shows the
-- figures of two replies that both succeeded.
pub load_summary_lem :
    (net : Summary) (d : Dashboard) (c : Client)
    → let d' = (load_summary net d c).0 in
      (d'.loading_snapshot ≡ false)
      × ((d'.snapshot_error ≡ some "error") ⊎ ((d'.snapshot_error ≡ none) × IsShown net d'))
unfolding load_summary
load_summary_lem net d c =
    let loading : Dashboard = record d { loading_snapshot = true; snapshot_error = none } in
    (
      refl,
      loaded-IsShown net _ (
          after_snapshot-cases net loading (load_active_snapshot net.csrf net.snapshot d.store c)
            refl),
    )
