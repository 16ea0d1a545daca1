-- ===== src/Components/Chart/Lifecycle.antt =====
-- When the chart exists and what it shows (web/src/components/HostTrafficChart.vue). The watchers
-- of the properties run before the page is rendered again, so they see the container of the
-- rendering before.
use mitigador.Base.{
  Bool, true, false, Option, none, some, List, [], ◌∷◌, ◌≡◌, ◌⊎◌, ◌∙◌, refl, arith, if◌then◌else◌,
}
use mitigador.Api.Traffic.{HostBucket}
use mitigador.Components.Chart.{Mode, Column, build_data}

-- What `uplot` was given: the options' mode, and the data.
pub record Plot : Type 0 where
  pub mode : Mode
  pub columns : Option (List Column)

pub record Chart : Type 0 where
  pub buckets : List HostBucket
  pub mode : Mode
  -- `containerRef` is not `null`.
  pub container : Bool
  pub chart : Option Plot
  -- The `ResizeObserver` that calls `handleResize`.
  pub observer : Bool

abbrev pub is_empty : List HostBucket → Bool
is_empty [] = true
is_empty (_ ∷ _) = false

unfoldable pub plot : Chart → Plot
plot c = record { mode = c.mode; columns = build_data c.mode c.buckets }

unfoldable pub mount_chart : Chart → Chart
unfolding plot
mount_chart c = if c.container then record c { chart = some (plot c) } else c

unfoldable pub destroy_chart : Chart → Chart
destroy_chart c = record c { chart = none }

observe : Chart → Chart
observe c = if c.container then record c { observer = true } else c

-- `onMounted`
unfoldable pub on_mounted : Chart → Chart
unfolding mount_chart observe
on_mounted c = if is_empty c.buckets then c else observe (mount_chart c)

-- The template: without buckets there is no container.
unfoldable pub render : Chart → Chart
render c = record c { container = if is_empty c.buckets then false else true }

-- The component from its creation to the end of `onMounted`.
unfoldable pub create : Mode → List HostBucket → Chart
unfolding render on_mounted
create mode buckets = on_mounted (
    render (record {
      buckets = buckets;
      mode = mode;
      container = false;
      chart = none;
      observer = false;
    }))

-- The watcher of the mode.
unfoldable pub watch_mode : Chart → Chart
unfolding mount_chart destroy_chart
watch_mode c = if is_empty c.buckets then destroy_chart c else mount_chart (destroy_chart c)

set_data : Chart → Option Plot → Chart
unfolding mount_chart
set_data c none = mount_chart c
set_data c (some p) = record c { chart = some (record p { columns = build_data c.mode c.buckets }) }

-- The watcher of the buckets.
unfoldable pub watch_buckets : Chart → Chart
unfolding destroy_chart set_data
watch_buckets c = if is_empty c.buckets then destroy_chart c else set_data c c.chart

unfoldable pub update_mode : Mode → Chart → Chart
unfolding watch_mode render
update_mode mode c = render (watch_mode (record c { mode = mode }))

unfoldable pub update_buckets : List HostBucket → Chart → Chart
unfolding watch_buckets render
update_buckets buckets c = render (watch_buckets (record c { buckets = buckets }))

-- `onBeforeUnmount` and `onUnmounted`
unfoldable pub unmount : Chart → Chart
unfolding destroy_chart
unmount c = destroy_chart (record c { observer = false })

-- What the plot shows, if there is one, is what the properties say, and it stands in its container.
pub record IsCurrent (c : Chart) : Type 0 where
  pub contained : c.container ≡ (if is_empty c.buckets then false else true)
  pub absent : c.container ≡ false → c.chart ≡ none
  pub shown : (c.chart ≡ none) ⊎ (c.chart ≡ some (plot c))

create-IsCurrent : (mode : Mode) (buckets : List HostBucket) → IsCurrent (create mode buckets)
unfolding create
create-IsCurrent mode [] = ground arith
create-IsCurrent mode (b ∷ buckets) = ground arith

update_mode-IsCurrent : (mode : Mode) (c : Chart) → IsCurrent c → IsCurrent (update_mode mode c)
unfolding update_mode plot
update_mode-IsCurrent mode c h = ground arith

update_buckets-IsCurrent :
    (buckets : List HostBucket) (c : Chart) → IsCurrent c → IsCurrent (update_buckets buckets c)
unfolding update_buckets plot
update_buckets-IsCurrent buckets c h = ground arith

-- A change of the properties.
pub data Update : Type 0 where
  to_mode : Mode → Update
  to_buckets : List HostBucket → Update

pub update : Update → Chart → Chart
update (to_mode mode) c = update_mode mode c
update (to_buckets buckets) c = update_buckets buckets c

pub run : List Update → Chart → Chart
run [] c = c
run (u ∷ updates) c = run updates (update u c)

run-IsCurrent_from : (updates : List Update) (c : Chart) → IsCurrent c → IsCurrent (run updates c)
unfolding run update
run-IsCurrent_from [] c h = h
run-IsCurrent_from (to_mode mode ∷ updates) c h =
    run-IsCurrent_from updates _ (update_mode-IsCurrent mode c h)
run-IsCurrent_from (to_buckets buckets ∷ updates) c h =
    run-IsCurrent_from updates _ (update_buckets-IsCurrent buckets c h)

-- Through any changes of its properties the chart never shows old data, an old mode, or data
-- without a container: its plot, if there is one, is that of its present buckets and mode.
pub run-IsCurrent :
    (mode : Mode) (buckets : List HostBucket) (updates : List Update)
    → IsCurrent (run updates (create mode buckets))
run-IsCurrent mode buckets updates =
    run-IsCurrent_from updates (create mode buckets) (create-IsCurrent mode buckets)

observer-update : (u : Update) (c : Chart) → (update u c).observer ≡ c.observer
unfolding update update_mode update_buckets
observer-update (to_mode mode) c = ground arith
observer-update (to_buckets buckets) c = ground arith

observer-run : (updates : List Update) (c : Chart) → (run updates c).observer ≡ c.observer
unfolding run
observer-run [] c = refl
observer-run (u ∷ updates) c = observer-run updates (update u c) ∙ observer-update u c

-- A chart that is created before its first buckets has, through any changes, no observer of its size, and its
-- first buckets draw nothing: only the next change does.
pub run_late :
    (mode : Mode) (updates : List Update) (b : HostBucket) (buckets : List HostBucket)
    → ((run updates (create mode [])).observer ≡ false)
      × ((update_buckets (b ∷ buckets) (create mode [])).chart ≡ none)
unfolding create update_buckets
run_late mode updates b buckets = (observer-run updates (create mode []), refl)
