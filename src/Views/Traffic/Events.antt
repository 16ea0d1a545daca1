-- ===== src/Views/Traffic/Events.antt =====
-- What happens to the page of the top talkers while it is mounted (web/src/views/TrafficView.vue).
use mitigador.Base.{ℕ, String, Bool, true, false, Option, List, [], ◌∷◌, if◌then◌else◌, ◌==◌}
use mitigador.Api.Http.{Result}
use mitigador.Api.Traffic.{TopTalker, TopTalkersResponse, HostTrafficResponse}
use mitigador.Views.Traffic.{
  Traffic, Mode, Poll, Call, top, host, top20_done, host_done, tick, on_visibility_change,
  open_drawer, close_drawer, retry_top, refresh_host, update_mobile,
}

-- The browser hands a reply to the request that waits for it.
is_top : Call → Bool
is_top top = true
is_top (host _) = false

is_host : String → Call → Bool
is_host ip top = false
is_host ip (host ip') = ip' == ip

erase_first : (Call → Bool) → List Call → List Call
erase_first test [] = []
erase_first test (c ∷ calls) = if test c then calls else c ∷ erase_first test calls

unfoldable pub top_reply : ℕ → Result (Option TopTalkersResponse) → Traffic → Traffic
unfolding top20_done is_top erase_first
top_reply now r p = top20_done now r (record p { calls = erase_first is_top p.calls })

unfoldable pub host_reply : String → Result (Option HostTrafficResponse) → Traffic → Traffic
unfolding host_done is_host erase_first
host_reply ip r p = host_done r (record p { calls = erase_first (is_host ip) p.calls })

-- `v-model:show` of the drawer. The button that closes it does this and nothing else; a click
-- beside it and the escape key call `closeDrawer` too.
unfoldable pub hide_drawer : Traffic → Traffic
hide_drawer p = record p { drawer_open = false }

-- `v-model:value` of the buttons for the mode.
unfoldable pub set_mode : Mode → Traffic → Traffic
set_mode mode p = record p { mode = mode }

-- What happens to the page between its mounting and its unmounting.
pub data Event : Type 0 where
  visibility : Bool → Event
  fires : Poll → Event
  open_row : TopTalker → Event
  closing hiding retrying_top retrying_host : Event
  toggle : Mode → Event
  resize : ℕ → Event
  top_replies : ℕ → Result (Option TopTalkersResponse) → Event
  host_replies : String → Result (Option HostTrafficResponse) → Event

unfoldable pub step : Event → Traffic → Traffic
step (visibility visible) p = on_visibility_change visible p
step (fires poll) p = tick poll p
step (open_row row) p = open_drawer row p
step closing p = close_drawer p
step hiding p = hide_drawer p
step (toggle mode) p = set_mode mode p
step retrying_top p = retry_top p
step retrying_host p = refresh_host p
step (resize width) p = update_mobile width p
step (top_replies now r) p = top_reply now r p
step (host_replies ip r) p = host_reply ip r p

unfoldable pub run : List Event → Traffic → Traffic
run [] p = p
run (e ∷ events) p = run events (step e p)
