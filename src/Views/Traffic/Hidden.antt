-- ===== src/Views/Traffic/Hidden.antt =====
-- A drawer that its button has closed (the template of web/src/views/TrafficView.vue).
use mitigador.Base.{
  String, Bool, true, false, ℕ, Option, none, some, List, [], ◌∷◌, ◌++◌, ◌≡◌, refl, arith, All,
}
use mitigador.Api.Http.{Result, ok, thrown}
use mitigador.Api.Traffic.{TopTalkersResponse, HostTrafficResponse}
use mitigador.Browser.{runs}
use mitigador.Views.Traffic.{
  Traffic, poll_top, poll_host, host, drawer_host, start_top_polling, load_top20, load_host,
  load_if, refresh_host, resume_host, on_visibility_change, tick, retry_top, update_mobile,
  top20_done, host_done, host_failed,
}
use mitigador.Views.Traffic.Events.{
  Event, visibility, fires, open_row, closing, hiding, toggle, retrying_top, retrying_host, resize,
  top_replies, host_replies, hide_drawer, set_mode, top_reply, host_reply, step, run,
}
use mitigador.Views.Traffic.Polls.{IsTidy, run-IsTidy}

-- The events but those that open a row, close the drawer and hide the page.
abbrev pub leaves_drawer : Event → Bool
leaves_drawer (visibility visible) = visible
leaves_drawer (open_row row) = false
leaves_drawer closing = false
leaves_drawer _ = true

-- The drawer is closed, and its host is polled on.
record IsHidden (ip : String) (t : ℕ) (p : Traffic) : Type 0 where
  pub shut : p.drawer_open ≡ false
  pub host_kept : drawer_host p ≡ some ip
  pub held : p.host_interval ≡ some t

module _ (ip : String) (t : ℕ) where
  host_done-IsHidden :
      (r : Result (Option HostTrafficResponse)) (p : Traffic)
      → IsHidden ip t p
      → IsHidden ip t (host_done r p)
  unfolding host_done host_failed
  host_done-IsHidden (ok (some resp)) p h = record {
    shut = h.shut;
    host_kept = h.host_kept;
    held = h.held;
  }
  host_done-IsHidden (ok none) p h = record {
    shut = h.shut;
    host_kept = h.host_kept;
    held = h.held;
  }
  host_done-IsHidden (thrown e) p h = record {
    shut = h.shut;
    host_kept = h.host_kept;
    held = h.held;
  }

  top20_done-IsHidden :
      (now : ℕ) (r : Result (Option TopTalkersResponse)) (p : Traffic)
      → IsHidden ip t p
      → IsHidden ip t (top20_done now r p)
  unfolding top20_done
  top20_done-IsHidden now (ok (some resp)) p h = record {
    shut = h.shut;
    host_kept = h.host_kept;
    held = h.held;
  }
  top20_done-IsHidden now (ok none) p h = record {
    shut = h.shut;
    host_kept = h.host_kept;
    held = h.held;
  }
  top20_done-IsHidden now (thrown e) p h = record {
    shut = h.shut;
    host_kept = h.host_kept;
    held = h.held;
  }

  refresh_host-IsHidden : (p : Traffic) → IsHidden ip t p → IsHidden ip t (refresh_host p)
  unfolding refresh_host load_if load_host
  refresh_host-IsHidden p h =
      simp h.host_kept (record { shut = h.shut; host_kept = h.host_kept; held = h.held })

  resume_host-IsHidden : (p : Traffic) → IsHidden ip t p → IsHidden ip t (resume_host p)
  unfolding resume_host
  resume_host-IsHidden p h = simp h.shut h

  step-IsHidden :
      (e : Event) (p : Traffic)
      → leaves_drawer e ≡ true
      → IsHidden ip t p
      → IsHidden ip t (step e p)
  unfolding step tick on_visibility_change load_top20 start_top_polling hide_drawer set_mode
      retry_top update_mobile top_reply host_reply
  step-IsHidden (visibility true) p l h =
      resume_host-IsHidden (start_top_polling (load_top20 p))
        (record { shut = h.shut; host_kept = h.host_kept; held = h.held })
  step-IsHidden (visibility false) p l h = cc
  step-IsHidden (fires poll_top) p l h = record {
    shut = h.shut;
    host_kept = h.host_kept;
    held = h.held;
  }
  step-IsHidden (fires poll_host) p l h = refresh_host-IsHidden p h
  step-IsHidden (open_row row) p l h = cc
  step-IsHidden closing p l h = cc
  step-IsHidden hiding p l h = record { shut = refl; host_kept = h.host_kept; held = h.held }
  step-IsHidden (toggle mode) p l h = record {
    shut = h.shut;
    host_kept = h.host_kept;
    held = h.held;
  }
  step-IsHidden retrying_top p l h = record {
    shut = h.shut;
    host_kept = h.host_kept;
    held = h.held;
  }
  step-IsHidden retrying_host p l h = refresh_host-IsHidden p h
  step-IsHidden (resize width) p l h = record {
    shut = h.shut;
    host_kept = h.host_kept;
    held = h.held;
  }
  step-IsHidden (top_replies now r) p l h =
      top20_done-IsHidden now r _ (record { shut = h.shut; host_kept = h.host_kept; held = h.held })
  step-IsHidden (host_replies from r) p l h =
      host_done-IsHidden r _ (record { shut = h.shut; host_kept = h.host_kept; held = h.held })

  run-IsHidden :
      (events : List Event) (p : Traffic)
      → All (λ e. leaves_drawer e ≡ true) events
      → IsHidden ip t p
      → IsHidden ip t (run events p)
  unfolding run
  run-IsHidden [] p l h = h
  run-IsHidden (e ∷ events) p l h = run-IsHidden events (step e p) l.1 (step-IsHidden e p l.0 h)

  asks_on : (p : Traffic) → IsHidden ip t p → (tick poll_host p).calls ≡ p.calls ++ host ip ∷ []
  unfolding tick refresh_host load_if load_host
  asks_on p h = simp h.host_kept refl

  -- If the button of the drawer closes it while its host is polled, on a page whose intervals and
  -- address are as every event keeps them, then whatever happens but that a row is opened, the
  -- drawer closed in another way or the page hidden, the drawer stays closed, its interval runs on,
  -- and each time that it fires the page asks for the host's traffic again.
  pub run-hiding :
      (events : List Event) (p : Traffic)
      → IsTidy p
      → drawer_host p ≡ some ip
      → p.host_interval ≡ some t
      → All (λ e. leaves_drawer e ≡ true) events
      → let q = run (hiding ∷ events) p in
        (q.drawer_open ≡ false)
        × (runs t q.intervals ≡ true)
        × ((step (fires poll_host) q).calls ≡ q.calls ++ host ip ∷ [])
  unfolding step run hide_drawer
  run-hiding events p tidy named held l =
      let hidden =
        run-IsHidden events (hide_drawer p) l
          (record { shut = refl; host_kept = named; held = held }) in
      let owns = (run-IsTidy (hiding ∷ events) tidy).owns in
      (hidden.shut, ground (arith, owns.owned t, hidden.held), asks_on _ hidden)
