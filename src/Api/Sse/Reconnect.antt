-- ===== src/Api/Sse/Reconnect.antt =====
-- What the connection does when the server refuses it, fails or ends the stream
-- (web/src/api/sse.ts).
use mitigador.Base.{ℕ, String, false, ◌≡◌, ◌≢◌, arith}
use mitigador.Api.Http.{Text, is_ok}
use mitigador.Api.Sse.{Handlers, Outcome, returned, threw, onopen, onmessage, onerror}

-- What happens on the wire: a response with its status, a message, a failure, the end of the
-- stream; and the end of the wait before the next attempt.
pub data Signal (T : Type 0) : Type 0 where
  response : ℕ → Signal T
  message : String → Text T → Signal T
  failure : Signal T
  finish : Signal T
  retry : Signal T

pub data Phase : Type 0 where
  requesting streaming waiting stopped : Phase

-- The package: the phase that follows the response, an error, and the end of a stream, by how the
-- callbacks `onopen` and `onerror` ended.
pub record Driver : Type 0 where
  pub after_open : Outcome → Phase
  pub after_error : Outcome → Phase
  pub after_finish : Phase
  -- "Called when a response is received. Use this to validate it, and throw if it doesn't match."
  pub open_returned : after_open returned ≡ streaming
  -- "If `onerror` returns undefined, every error is treated as retriable"; "rethrow to stop".
  pub error_returned : after_error returned ≡ waiting
  pub error_threw : after_error threw ≡ stopped
  -- Without `onclose` the end of a response ends the operation.
  pub finish_stops : after_finish ≡ stopped

module _ (d : Driver) {S T : Type 0} (h : Handlers S T) where
  -- An error of the connection or of `onopen` goes to `onerror`.
  failed : S × Outcome → S × Phase
  failed (s, _) = let (s', o) = onerror h s in (s', d.after_error o)

  settle : S × Outcome → S × Phase
  unfolding failed
  settle (s, returned) = (s, d.after_open returned)
  settle (s, threw) = failed (s, threw)

  unfoldable pub step : Phase → Signal T → S → S × Phase
  unfolding failed settle
  step requesting (response status) s = settle (onopen h status s)
  step requesting failure s = failed (s, threw)
  step streaming (message event text) s = ((onmessage h event text s).0, streaming)
  step streaming failure s = failed (s, threw)
  step streaming finish s = (s, d.after_finish)
  step waiting retry s = (s, requesting)
  step phase _ s = (s, phase)

  -- A response that is not ok, an authentication failure included, does not stop the attempts: the
  -- caller is told of an error, and the connection waits for the next attempt.
  pub refused_retries :
      (status : ℕ) (s : S)
      → is_ok status ≡ false
      → step requesting (response status) s ≡ (h.on_error s, waiting)
  unfolding step onopen onerror
  refused_retries status s e = ground (arith, d.error_returned)

  -- The attempts stop only at the end of a stream: no response, message or failure stops them.
  stops_only_at_finish :
      (phase : Phase) (signal : Signal T) (s : S)
      → phase ≢ stopped
      → (step phase signal s).1 ≡ stopped
      → (phase ≡ streaming) × (signal ≡ finish)
  unfolding step onopen onerror
  stops_only_at_finish phase signal s p e = ground (arith, d.error_returned, d.open_returned)
