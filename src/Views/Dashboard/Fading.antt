-- ===== src/Views/Dashboard/Fading.antt =====
-- The timers behind the rows that fade (web/src/views/DashboardView.vue): every fading row has a
-- timer that will take it off the page.
use mitigador.Base.{
  ℕ, ◌<◌, String, true, Option, none, some, List, [], ◌∷◌, ◌≡◌, ◌∙◌, arith, All, ◌==◌, Option-cases,
  Bool-cases, inl, inr,
}
use mitigador.Stores.Incidents.{AttackEvent, handle_event}
use mitigador.Views.Dashboard.{
  Dashboard, Callback, unflash, unfade, has, remove, clear_timeout, find_timer, fire, run_callback,
  on_sse_message, animate, flash, fade,
}
use mitigador.Views.Dashboard.Timers.{
  ends, has_timer, HasDistinctHandles, any-append, has-add, has-remove, distinct-append,
  clear-unused, has_timer-clear, below-clear, distinct-clear, find_timer-none, below-append,
}

pub record IsAnimated (d : Dashboard) : Type 0 where
  pub below : All (λ t. t.0 < d.next_handle) d.timers
  pub distinct : HasDistinctHandles d.timers
  pub timed : (id : String) → has d.fading_rows id ≡ true → has_timer id d.timers ≡ true

flash-IsAnimated : (id : String) (d : Dashboard) → IsAnimated d → IsAnimated (flash id d)
unfolding flash
flash-IsAnimated id d h = record {
  below = below-append d.timers d.next_handle (unflash id) h.below;
  distinct = distinct-append d.timers d.next_handle (unflash id) h.below h.distinct;
  timed = λ j e.
      any-append (λ t. ends j t.1) d.timers (d.next_handle, unflash id)
      ∙ ground (arith, h.timed j e);
}

fade-IsAnimated : (id : String) (d : Dashboard) → IsAnimated d → IsAnimated (fade id d)
unfolding fade
fade-IsAnimated id d h = record {
  below = below-append d.timers d.next_handle (unfade id) h.below;
  distinct = distinct-append d.timers d.next_handle (unfade id) h.below h.distinct;
  timed = λ j e.
      any-append (λ t. ends j t.1) d.timers (d.next_handle, unfade id)
      ∙ ground (arith, h.timed j, has-add id j d.fading_rows);
}

animate-IsAnimated :
    (type id : String) (d : Dashboard) → IsAnimated d → IsAnimated (animate type id d)
unfolding animate
animate-IsAnimated type id d h = elim (Bool-cases (type == "attack.started")) [
  | inl e ↦ rw e (flash-IsAnimated id d h)
  | inr e ↦ rw e (elim (Bool-cases (type == "attack.ended")) [
    | inl e' ↦ rw e' (fade-IsAnimated id d h)
    | inr e' ↦ rw e' h
  ])
]

-- Every event of the stream keeps the timers in order: each row that fades has a pending timer that
-- will take it off the page.
pub on_sse_message-IsAnimated :
    (type : String) (ev : Option AttackEvent) (d : Dashboard)
    → IsAnimated d
    → IsAnimated (on_sse_message type ev d)
unfolding on_sse_message
on_sse_message-IsAnimated type none d h = h
on_sse_message-IsAnimated type (some ev) d h =
    let d' : Dashboard = record d {
      store = record d.store { active = handle_event type ev d.store.active };
    } in
    let h' : IsAnimated d' = record { below = h.below; distinct = h.distinct; timed = h.timed } in
    elim (Bool-cases (ev.incident_id == "")) [
      | inl e ↦ rw e h'
      | inr e ↦ rw e (animate-IsAnimated type ev.incident_id d' h')
    ]

clear-IsAnimated :
    (t : ℕ) (d : Dashboard) (fading : List String)
    → IsAnimated d
    → ((id : String) → has fading id ≡ true → has_timer id (clear_timeout t d.timers) ≡ true)
    → IsAnimated (record d { timers = clear_timeout t d.timers; fading_rows = fading })
clear-IsAnimated t d fading h timed = record {
  below = below-clear t d.next_handle d.timers h.below;
  distinct = distinct-clear t d.timers h.distinct;
  timed = timed;
}

run_callback-IsAnimated :
    (f : Callback) (t : ℕ) (d : Dashboard)
    → find_timer t d.timers ≡ some f
    → IsAnimated d
    → IsAnimated (run_callback f (record d { timers = clear_timeout t d.timers }))
unfolding run_callback
run_callback-IsAnimated (unflash id) t d e h =
    let h' = clear-IsAnimated t d d.fading_rows h λ j k.
      ground (arith, h.timed j k, has_timer-clear t j d.timers {f = unflash id} h.distinct e) in
    record { below = h'.below; distinct = h'.distinct; timed = h'.timed }
run_callback-IsAnimated (unfade id) t d e h =
    let h' = clear-IsAnimated t d (remove id d.fading_rows) h λ j k. ground (
      arith,
      h.timed j,
      has-remove id j d.fading_rows,
      has_timer-clear t j d.timers {f = unfade id} h.distinct e,
    ) in
    record { below = h'.below; distinct = h'.distinct; timed = h'.timed }

-- So does every timer that fires.
pub fire-IsAnimated : (t : ℕ) (d : Dashboard) → IsAnimated d → IsAnimated (fire t d)
unfolding fire
fire-IsAnimated t d h = elim (Option-cases (find_timer t d.timers)) [
  | inl e ↦ rw (e, clear-unused t d.timers (find_timer-none t d.timers e)) h
  | inr (f, e) ↦ rw e (run_callback-IsAnimated f t d e h)
]

-- What happens to a mounted page: an event of the stream, or a timer that fires.
pub data Event : Type 0 where
  message : String → Option AttackEvent → Event
  timer : ℕ → Event

unfoldable pub step : Event → Dashboard → Dashboard
step (message type ev) d = on_sse_message type ev d
step (timer t) d = fire t d

unfoldable pub run : List Event → Dashboard → Dashboard
run [] d = d
run (e ∷ events) d = run events (step e d)

-- In every interleaving of events and timers, each fading row has a pending timer of its own.
pub run-IsAnimated :
    (events : List Event) (d : Dashboard) → IsAnimated d → IsAnimated (run events d)
unfolding run step
run-IsAnimated [] d h = h
run-IsAnimated (message type ev ∷ events) d h =
    run-IsAnimated events (on_sse_message type ev d) (on_sse_message-IsAnimated type ev d h)
run-IsAnimated (timer t ∷ events) d h = run-IsAnimated events (fire t d) (fire-IsAnimated t d h)
