-- ===== src/Components/Indicator.antt =====
-- The dot that shows the state of the stream (web/src/components/SSEIndicator.vue).
use mitigador.Base.{String, Option, none, some}
use mitigador.Stores.Incidents.{SseStatus, connecting, opened, reconnecting, closed}

unfoldable pub dot_color : SseStatus → String
dot_color opened = "#18a058"
dot_color connecting = "#f0a020"
dot_color reconnecting = "#f0a020"
dot_color closed = "#d03050"

-- The key of the label; no text beside a connected stream.
unfoldable pub label : SseStatus → Option String
label opened = none
label connecting = some "sse.reconectando"
label reconnecting = some "sse.reconectando"
label closed = some "sse.desconectado"
