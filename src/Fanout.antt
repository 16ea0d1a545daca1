-- ===== src/Fanout.antt =====
-- One channel fanned out to many that are never waited for: the bus of the events
-- (internal/alert/bus.go), and the broker of the clients of the stream (internal/api/sse.go). What the
-- goroutines do is a list of steps in any order, since each step is one choice of a `select`, or is
-- taken with the lock.
pub mod Delivery
pub mod Served
use mitigador.Base.{
  ℕ, Option, none, some, is_some, List, [], ◌∷◌, ◌++◌, map, length, ltb, eqb, if◌then◌else◌,
}

-- A subscriber: its channel, named by a number, what waits in its buffer, and what it has received,
-- the latest last.
pub record Subscriber (A : Type 0) : Type 0 where
  pub channel : ℕ
  pub buffer : List A
  pub received : List A

pub data Step (A : Type 0) : Type 0 where
  send : A → Step A
  receive : ℕ → Step A
  subscribe : ℕ → Step A
  unsubscribe : ℕ → Step A

-- `NewBus`: a buffer of less than one event is taken for one of 256.
unfoldable pub buffer_of : ℕ → ℕ
buffer_of per_sink_buffer = if ltb per_sink_buffer 1 then 256 else per_sink_buffer

module _ {A : Type 0} where
  -- `select` with a `default`: a full buffer drops what is sent to it.
  unfoldable pub offer : ℕ → A → Subscriber A → Subscriber A
  offer size x s =
      if ltb (length s.buffer) size then record s { buffer = s.buffer ++ x ∷ [] } else s

  abbrev pub take_first : List A → Subscriber A → Subscriber A
  take_first [] s = s
  take_first (x ∷ rest) s = record s { buffer = rest; received = s.received ++ x ∷ [] }

  -- A receive from the channel, which waits while its buffer is empty.
  unfoldable pub take_one : Subscriber A → Subscriber A
  take_one s = take_first s.buffer s

  abbrev pub new_subscriber : ℕ → Subscriber A
  new_subscriber k = record { channel = k; buffer = []; received = [] }

  unfoldable pub find : ℕ → List (Subscriber A) → Option (Subscriber A)
  find k [] = none
  find k (s ∷ subs) = if eqb s.channel k then some s else find k subs

  unfoldable pub receive_at : ℕ → List (Subscriber A) → List (Subscriber A)
  unfolding take_one
  receive_at k [] = []
  receive_at k (s ∷ subs) =
      let rest = receive_at k subs in if eqb s.channel k then take_one s ∷ subs else s ∷ rest

  unfoldable pub remove : ℕ → List (Subscriber A) → List (Subscriber A)
  remove k [] = []
  remove k (s ∷ subs) = let rest = remove k subs in if eqb s.channel k then rest else s ∷ rest

  -- A channel is subscribed once, when it is made.
  unfoldable pub add : ℕ → List (Subscriber A) → List (Subscriber A)
  unfolding find
  add k subs = if is_some (find k subs) then subs else subs ++ new_subscriber k ∷ []

  unfoldable pub step : ℕ → Step A → List (Subscriber A) → List (Subscriber A)
  unfolding offer receive_at remove add
  step size (send x) subs = map (offer size x) subs
  step size (receive k) subs = receive_at k subs
  step size (subscribe k) subs = add k subs
  step size (unsubscribe k) subs = remove k subs

  unfoldable pub run : ℕ → List (Step A) → List (Subscriber A) → List (Subscriber A)
  unfolding step
  run size [] subs = subs
  run size (x ∷ steps) subs = run size steps (step size x subs)
