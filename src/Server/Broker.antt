-- ===== src/Server/Broker.antt =====
-- The broker of the stream's clients and the handler that writes to one of them
-- (internal/api/sse.go). The client reads the payload's JSON as in Server.Events.
use mitigador.Base.{
  String, Bool, false, ◌&&◌, Option, none, some, List, [], ◌∷◌, map, if◌then◌else◌, ◌==◌, ◌≡◌, refl,
  ℕ, suc, ◌-◌, ltb, All, Bool-cases, inl, inr, arith, ap, ◌∙◌, length, ◌≤◌, eqb,
}
use mitigador.Detect.{AttackEvent, State, started, updated, ended}
use mitigador.Fanout.{Subscriber, Step, send, receive, subscribe, unsubscribe, find, run}
use mitigador.Fanout.Served.{
  IsPart, none_left, kept, dropped, sent, got, leaves, run-IsServed, waiting, finds_room,
}
use mitigador.Server.Events.{event_type}

-- `ssePayload`; the one of a heartbeat has no text.
pub record Payload : Type 0 where
  pub id : String
  pub type : String
  pub event : Option AttackEvent

unfoldable pub payload : AttackEvent → Payload
payload ev = record { id = ev.incident_id; type = event_type ev.state; event = some ev }

abbrev pub heartbeat : Payload
heartbeat = record { id = ""; type = ""; event = none }

-- What `Run` and the handlers of the clients do.
pub data Turn : Type 0 where
  event : AttackEvent → Turn
  beat : Turn
  write : ℕ → Turn
  connect : ℕ → Turn
  disconnect : ℕ → Turn

unfoldable pub turn : Turn → Step Payload
unfolding payload
turn (event ev) = send (payload ev)
turn beat = send heartbeat
turn (write k) = receive k
turn (connect k) = subscribe k
turn (disconnect k) = unsubscribe k

-- The buffer of a client has room for 16 payloads.
unfoldable pub serve : List Turn → List (Subscriber Payload) → List (Subscriber Payload)
unfolding turn
serve turns clients = run 16 (map turn turns) clients

-- What the handler writes: a comment, or a message with its event.
pub data Frame : Type 0 where
  comment : Frame
  message : String → String → Option AttackEvent → Frame

unfoldable pub frame : Payload → Frame
frame p = if p.id == "" && p.type == "" then comment else message p.id p.type p.event

abbrev add_frame : Frame → List (Option AttackEvent) → List (Option AttackEvent)
add_frame comment rest = rest
add_frame (message id type ev) rest = ev ∷ rest

-- The events of the messages among what the handler writes; a comment the client leaves out.
unfoldable pub messages : List Payload → List (Option AttackEvent)
unfolding frame
messages [] = []
messages (p ∷ ps) = add_frame (frame p) (messages ps)

abbrev pub events : List Turn → List AttackEvent
events [] = []
events (event ev ∷ turns) = ev ∷ events turns
events (_ ∷ turns) = events turns

event_type-nonempty : (s : State) → (event_type s == "") ≡ false
event_type-nonempty started = refl
event_type-nonempty updated = refl
event_type-nonempty ended = refl

messages-payload :
    (ev : AttackEvent) (ps : List Payload) → messages (payload ev ∷ ps) ≡ some ev ∷ messages ps
unfolding messages frame payload
messages-payload ev ps = elim (Bool-cases (ev.incident_id == "")) [
  | inl e ↦ rw (e, event_type-nonempty ev.state) refl
  | inr e ↦ rw e refl
]

messages-sent : (turns : List Turn) → messages (sent (map turn turns)) ≡ map some (events turns)
unfolding turn messages frame
messages-sent [] = refl
messages-sent (event ev ∷ turns) =
    rw (messages-payload ev (sent (map turn turns)), messages-sent turns) refl
messages-sent (beat ∷ turns) = messages-sent turns
messages-sent (write k ∷ turns) = messages-sent turns
messages-sent (connect k ∷ turns) = messages-sent turns
messages-sent (disconnect k ∷ turns) = messages-sent turns

add_frame-IsPart :
    (f : Frame) {xs ys : List (Option AttackEvent)}
    → IsPart xs ys
    → IsPart (add_frame f xs) (add_frame f ys) × IsPart xs (add_frame f ys)
add_frame-IsPart comment h = (h, h)
add_frame-IsPart (message id type ev) h = (kept h, dropped h)

messages-IsPart : {xs ys : List Payload} → IsPart xs ys → IsPart (messages xs) (messages ys)
unfolding messages
messages-IsPart none_left = none_left
messages-IsPart (kept {x = p} h) = (add_frame-IsPart (frame p) (messages-IsPart h)).0
messages-IsPart (dropped {x = p} h) = (add_frame-IsPart (frame p) (messages-IsPart h)).1

abbrev pub disconnects : ℕ → Turn → Bool
disconnects k (disconnect j) = eqb j k
disconnects k _ = false

leaves-turn : (k : ℕ) (t : Turn) → disconnects k t ≡ false → leaves k (turn t) ≡ false
unfolding turn
leaves-turn k (event ev) h = refl
leaves-turn k beat h = refl
leaves-turn k (write j) h = refl
leaves-turn k (connect j) h = refl
leaves-turn k (disconnect j) h = h

stays-turn :
    (k : ℕ) (turns : List Turn)
    → All (λ t. disconnects k t ≡ false) turns
    → All (λ x. leaves k x ≡ false) (map turn turns)
stays-turn k [] h = tt
stays-turn k (t ∷ turns) h = (leaves-turn k t h.0, stays-turn k turns h.1)

-- Counting only how many payloads wait for a client: the events that find fewer than 16 of them, an
-- event and a heartbeat taking a place each, and each write of the client's freeing one.
abbrev pub reaches : ℕ → ℕ → List Turn → List AttackEvent
reaches k n [] = []
reaches k n (event ev ∷ turns) =
    let more = reaches k (suc n) turns in
    let rest = reaches k n turns in if ltb n 16 then ev ∷ more else rest
reaches k n (beat ∷ turns) = reaches k (if ltb n 16 then suc n else n) turns
reaches k n (write j ∷ turns) = reaches k (if eqb j k then n - 1 else n) turns
reaches k n (_ ∷ turns) = reaches k n turns

messages-finds_room :
    (k n : ℕ) (turns : List Turn)
    → messages (finds_room 16 k n (map turn turns)) ≡ map some (reaches k n turns)
unfolding turn messages frame
messages-finds_room k n [] = refl
messages-finds_room k n (event ev ∷ turns) = elim (Bool-cases (ltb n 16)) [
  | inl e ↦ rw e (
      messages-payload ev (finds_room 16 k (suc n) (map turn turns))
      ∙ ap (some ev ∷◌) (messages-finds_room k (suc n) turns))
  | inr e ↦ rw e (messages-finds_room k n turns)
]
messages-finds_room k n (beat ∷ turns) = elim (Bool-cases (ltb n 16)) [
  | inl e ↦ rw e (messages-finds_room k (suc n) turns)
  | inr e ↦ rw e (messages-finds_room k n turns)
]
messages-finds_room k n (write j ∷ turns) =
    messages-finds_room k (if eqb j k then n - 1 else n) turns
messages-finds_room k n (connect j ∷ turns) = messages-finds_room k n turns
messages-finds_room k n (disconnect j ∷ turns) = messages-finds_room k n turns

-- Whatever the other clients do, the messages that a client has received since it connected, with
-- those that wait for it, are exactly the events of that time that found fewer than 16 payloads
-- waiting for it, in their order; as many payloads wait for it as were let in and not yet received,
-- and never more than 16; and if events and heartbeats together were no more than 16, all the events
-- are there.
pub serve-messages :
    (k : ℕ) (turns : List Turn) (clients : List (Subscriber Payload))
    → find k clients ≡ none
    → All (λ t. disconnects k t ≡ false) turns
    → (s : Subscriber Payload) × (find k (serve (connect k ∷ turns) clients) ≡ some s)
      × (length s.buffer ≤ 16)
      × IsPart (messages (got s)) (map some (events turns))
      × (length (sent (map turn turns)) ≤ 16 → messages (got s) ≡ map some (events turns))
      × (messages (got s) ≡ map some (reaches k 0 turns))
      × (length s.buffer ≡ waiting 16 k 0 (map turn turns))
unfolding serve turn
serve-messages k turns clients new stays =
    let (s, e, served) =
      run-IsServed 16 k (map turn turns) clients new (stays-turn k turns stays) in
    (
      s,
      e,
      served.fits,
      rw (served.gets, ← messages-sent turns) (messages-IsPart served.in_order),
      λ few. ap messages (served.gets ∙ served.complete (omega (arith, few))) ∙ messages-sent turns,
      ap messages (served.gets ∙ served.exact) ∙ messages-finds_room k 0 turns,
      served.left,
    )
