-- ===== src/Api/Sse.antt =====
-- The stream of events, `connectEvents` of web/src/api/sse.ts, over the state `S` of its caller.
-- The package `@microsoft/fetch-event-source`, which makes the connection, is the parameter
-- `Driver` of the child module.
pub mod Reconnect
use mitigador.Base.{ℕ, String, Bool, true, false, Option, none, some, ◌==◌, if◌then◌else◌}
use mitigador.Api.Http.{Text, blank, malformed, cut, json, is_ok}

-- `opts`, each callback as what it does to the caller's state.
pub record Handlers (S : Type 0) (T : Type 0) : Type 0 where
  pub on_open : S → S
  pub on_message : String → Option T → S → S
  pub on_error : S → S

-- How a callback ends. `onerror` always returns `undefined`.
pub data Outcome : Type 0 where
  returned threw : Outcome

module _ {S T : Type 0} (h : Handlers S T) where
  unfoldable pub onopen : ℕ → S → S × Outcome
  onopen status s = if is_ok status then (h.on_open s, returned) else (s, threw)

  -- `data` is `null` for an empty text, and a text that is no JSON is ignored.
  unfoldable pub on_data : String → Text T → S → S
  on_data event blank s = h.on_message event none s
  on_data event malformed s = s
  on_data event cut s = s
  on_data event (json value _) s = h.on_message event (some value) s

  unfoldable pub onmessage : String → Text T → S → S × Outcome
  unfolding on_data
  onmessage event text s = if event == "" then (s, returned) else (on_data event text s, returned)

  unfoldable pub onerror : S → S × Outcome
  onerror s = (h.on_error s, returned)
