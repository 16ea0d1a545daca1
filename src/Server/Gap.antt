-- ===== src/Server/Gap.antt =====
-- What the live page misses between its snapshot and its stream (web/src/views/DashboardView.vue
-- loads the summary before it connects; internal/api/sse.go sends to the clients that are connected).
use mitigador.Base.{
  ℕ, String, Bool, false, Option, none, some, List, [], ◌∷◌, map, ◌==◌, ◌≡◌, refl, ◌∙◌, All,
}
use mitigador.Aggregate.{Addr}
use mitigador.Detect
use mitigador.Fanout
use mitigador.Fanout.{Subscriber}
use mitigador.Fanout.Served.{IsPart, none_left, kept, dropped, got}
use mitigador.Server.Events.{event_type, event_to_map, deliver}
use mitigador.Server.Broker.{
  Payload, Turn, connect, disconnects, events, serve, messages, serve-messages,
}
use mitigador.Stores.Incidents.{ActiveAttack, handle_event}
use mitigador.Stores.Incidents.Lookup.{find, find-handle_event}

-- The events that the client parses of the messages.
abbrev pub heard : List (Option Detect.AttackEvent) → List Detect.AttackEvent
heard [] = []
heard (none ∷ ms) = heard ms
heard (some ev ∷ ms) = ev ∷ heard ms

abbrev pub about : String → Detect.AttackEvent → Bool
about id ev = ev.incident_id == id

abbrev told_of : String → Option Detect.AttackEvent → Bool
told_of id none = false
told_of id (some ev) = about id ev

IsPart-All : {A : Type 0} (p : A → Type 0) {xs ys : List A} → IsPart xs ys → All p ys → All p xs
IsPart-All p none_left h = h
IsPart-All p (kept part) h = (h.0, IsPart-All p part h.1)
IsPart-All p (dropped part) h = IsPart-All p part h.1

All-some :
    (id : String) (evs : List Detect.AttackEvent)
    → All (λ ev. about id ev ≡ false) evs
    → All (λ m. told_of id m ≡ false) (map some evs)
All-some id [] h = h
All-some id (ev ∷ evs) h = (h.0, All-some id evs h.1)

All-heard :
    (id : String) (ms : List (Option Detect.AttackEvent))
    → All (λ m. told_of id m ≡ false) ms
    → All (λ ev. about id ev ≡ false) (heard ms)
All-heard id [] h = h
All-heard id (none ∷ ms) h = All-heard id ms h.1
All-heard id (some ev ∷ ms) h = (h.0, All-heard id ms h.1)

module _ (address : Addr → String) (date : Option ℕ → String) where
  find-deliver_others :
      (id : String) (evs : List Detect.AttackEvent) (active : List ActiveAttack)
      → All (λ ev. about id ev ≡ false) evs
      → find id (deliver address date evs active) ≡ find id active
  unfolding deliver
  find-deliver_others id [] active h = refl
  find-deliver_others id (ev ∷ evs) active h =
      let type = event_type ev.state in
      let event = event_to_map address date ev in
      find-deliver_others id evs (handle_event type event active) h.1
      ∙ (find-handle_event type event id active ∙ rw h.0 refl)

  -- If nothing about an attack is sent any more once a client is connected, then what the client has
  -- in its store for it, from the snapshot that it loaded before, stays as it is, whatever else is sent
  -- and whatever the other clients do: an end that was sent before the client connected never comes.
  pub find-heard :
      (k : ℕ) (id : String) (turns : List Turn) (clients : List (Subscriber Payload))
      (active : List ActiveAttack)
      → Fanout.find k clients ≡ none
      → All (λ t. disconnects k t ≡ false) turns
      → All (λ ev. about id ev ≡ false) (events turns)
      → (s : Subscriber Payload) × (Fanout.find k (serve (connect k ∷ turns) clients) ≡ some s)
        × (find id (deliver address date (heard (messages (got s))) active) ≡ find id active)
  find-heard k id turns clients active new stays silent =
      let (s, e, _, part, _, _, _) = serve-messages k turns clients new stays in
      let others =
        IsPart-All (λ m. told_of id m ≡ false) part (All-some id (events turns) silent) in
      (
        s,
        e,
        find-deliver_others id (heard (messages (got s))) active
            (All-heard id (messages (got s)) others),
      )
