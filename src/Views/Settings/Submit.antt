-- ===== src/Views/Settings/Submit.antt =====
-- How the form of a router ends (web/src/views/SettingsMikrotikView.vue, `submit`).
use mitigador.Base.{
  ℕ, String, Bool, true, false, Option, none, some, List, ◌≡◌, ◌⊎◌, inl, inr, refl, is_some,
  Option-cases,
}
use mitigador.Api.Http.{Reply, Result, ok, thrown, Thrown}
use mitigador.Api.Mikrotik.{RouterItems}
use mitigador.Api.Client.{cached}
use mitigador.Api.Client.Effects.{Client, Exec, pure, ◌>>=◌, >>=-eq-ok}
use mitigador.Api.Client.Errors.{Returns, api-Returns, Returns-api}
use mitigador.Api.Mikrotik.{update_mikrotik_router, create_mikrotik_router}
use mitigador.Views.Settings.{
  Settings, Net, FormState, FormError, Toast, submit, submit_checked, refused, save, saved, loaded,
  reloaded, update_request, create_request, updated, created,
}
use mitigador.Views.Settings.Events.{Event, run}

-- The server has accepted the request.
abbrev pub Accepted : {T : Type 0} → Reply T → Type 0
Accepted {T} reply = (v : Option T) × Returns reply v

-- The end of a request that the server accepted: the dialog is closed, and nothing else that it
-- showed when the reply came is touched; once the list is loaded, the mark of sending is off.
pub record IsClosed (m : Settings) (later : List Event) (list : Result RouterItems)
    (end : Settings × Bool) : Type 0 where
  pub shut : end.0.modal_open ≡ false
  pub form_kept : end.0.form ≡ m.form
  pub error_kept : end.0.form_error ≡ m.form_error
  pub loads : end.1 ≡ true
  pub over : (reloaded list (run later end.0)).submitting ≡ false

-- The end of a request that failed: an error, over what was shown when the reply came.
pub record IsRefused (m : Settings) (end : Settings × Bool) : Type 0 where
  pub stays : end.0.modal_open ≡ m.modal_open
  pub form_kept : end.0.form ≡ m.form
  pub explained : is_some end.0.form_error ≡ true
  pub routers_kept : end.0.routers ≡ m.routers
  pub stops : end.1 ≡ false
  pub over : end.0.submitting ≡ false

returns-then :
    {A B : Type 0} (m : Exec A) (c : Client) (b : B) {a : A}
    → (m c).0 ≡ ok a
    → ((m >>= λ _. pure b) c).0 ≡ ok b
returns-then m c b h = rw h refl

module _ (show : ℕ → String) (net : Net) where
  save-Accepted :
      (form : FormState) (id : Option ℕ) (c : Client) {t : Toast}
      → (save show net form id c).0 ≡ ok t
      → Accepted net.save
  unfolding save update_mikrotik_router create_mikrotik_router
  save-Accepted form (some id) c h =
      let (v, e, _) =
        >>=-eq-ok (update_mikrotik_router net.csrf show net.save id (update_request form)) _ c h in
      (v, api-Returns net.csrf _ _ c net.save e)
  save-Accepted form none c h =
      let (v, e, _) =
        >>=-eq-ok (create_mikrotik_router net.csrf net.save (create_request form)) _ c h in
      (v, api-Returns net.csrf _ _ c net.save e)

  Accepted-save :
      (form : FormState) (id : Option ℕ) (c : Client)
      → is_some (cached c.csrf_token) ≡ true
      → Accepted net.save
      → (t : Toast) × ((save show net form id c).0 ≡ ok t)
  unfolding save update_mikrotik_router create_mikrotik_router
  Accepted-save form (some id) c held (v, h) =
      let (_, e) = Returns-api net.csrf _ _ c held h in
      (
        updated,
        returns-then (update_mikrotik_router net.csrf show net.save id (update_request form)) c
            updated e,
      )
  Accepted-save form none c held (v, h) =
      let (_, e) = Returns-api net.csrf _ _ c held h in
      (
        created,
        returns-then (create_mikrotik_router net.csrf net.save (create_request form)) c created e,
      )

  -- How `submit` goes on from the state `m` that the reply finds.
  pub IsDone : FormState → Client → Settings → List Event → Result RouterItems → Type 0
  IsDone form c m later list =
      let end = saved (save show net form form.id c).0 m in
      (Accepted net.save × IsClosed m later list end)
      ⊎ ((¬ ((is_some (cached c.csrf_token) ≡ true) × Accepted net.save)) × IsRefused m end)

  sent-IsDone :
      (form : FormState) (c : Client) (m : Settings) (later : List Event)
      (list : Result RouterItems)
      → IsDone form c m later list
  unfolding saved reloaded loaded IsDone
  sent-IsDone form c m later list = by_result (save show net form form.id c).0 refl
    where
      fails : {r : Result Toast} {err : Thrown} → r ≡ thrown err → (t : Toast) × (r ≡ ok t) → ⊥
      fails e (t, e') = cc

      by_result :
          (r : Result Toast) → (save show net form form.id c).0 ≡ r → IsDone form c m later list
      by_result (ok t) e = inl (
        save-Accepted form form.id c e,
        rw e (record {
          shut = refl;
          form_kept = refl;
          error_kept = refl;
          loads = refl;
          over = refl;
        }),
      )
      by_result (thrown err) e = inr (
        λ (held, accepted). fails e (Accepted-save form form.id c held accepted),
        rw e (record {
          stays = refl;
          form_kept = refl;
          explained = refl;
          routers_kept = refl;
          stops = refl;
          over = refl;
        }),
      )

  -- A form that the page refuses sends nothing and only shows why. A form that it sends goes out as
  -- it is and under no error. Whatever happens on the page before the reply comes: only if the
  -- server accepted the request, and then always if a token is cached, the dialog is closed and the
  -- list asked for, at whose end, whatever happens until then, the mark of sending is off; else an
  -- error is shown over the dialog, the form and the list as they then are, and the mark is off.
  pub submit_lem :
      (s : Settings) (c : Client) (between later : List Event) (list : Result RouterItems)
      → ((e : FormError) × (refused s.form ≡ some e)
          × (submit s ≡ (record s { form_error = some e }, none)))
        ⊎ ((refused s.form ≡ none)
            × (submit s ≡ (record s { form_error = none; submitting = true }, some s.form))
            × IsDone s.form c (run between (submit s).0) later list)
  unfolding submit submit_checked
  submit_lem s c between later list = elim (Option-cases (refused s.form)) [
    | inl passes ↦
        inr (passes, rw passes refl, sent-IsDone s.form c (run between (submit s).0) later list)
    | inr (e, stops) ↦ inl (e, stops, rw stops refl)
  ]
