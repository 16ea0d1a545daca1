-- ===== src/Views/Traffic/Drawer.antt =====
-- What the drawer of a host shows (web/src/views/TrafficView.vue).
use mitigador.Base.{false, Option, none, some, [], ◌≡◌, ◌≢◌, arith}
use mitigador.Api.Http.{Result, ok, thrown, api_error, network_error, syntax_error, type_error}
use mitigador.Api.Traffic.{TopTalker, HostTrafficResponse}
use mitigador.Views.Traffic.{Traffic, fetch, not_found, open_drawer, close_drawer}
use mitigador.Views.Traffic.Events.{host_reply}

-- What the drawer has to show for the reply to its request: the host's buckets and group, or an
-- error and no buckets, which says "not found" exactly for the status 404.
abbrev Answers : Result (Option HostTrafficResponse) → Traffic → Type 0
Answers (ok (some resp)) p =
    (p.drawer_buckets ≡ resp.buckets)
    × (p.drawer_hostgroup ≡ resp.hostgroup)
    × (p.drawer_error ≡ none)
Answers (ok none) p = (p.drawer_buckets ≡ []) × (p.drawer_error ≡ some fetch)
Answers (thrown (api_error e)) p =
    (p.drawer_buckets ≡ [])
    × (e.status ≡ 404 → p.drawer_error ≡ some not_found)
    × (e.status ≢ 404 → p.drawer_error ≡ some fetch)
Answers (thrown _) p = (p.drawer_buckets ≡ []) × (p.drawer_error ≡ some fetch)

module _ (row : TopTalker) (p : Traffic) where
  -- A drawer that is opened and gets its reply shows the answer to it, under the host's address.
  host_reply-open_drawer :
      (r : Result (Option HostTrafficResponse))
      → Answers r (host_reply row.ip r (open_drawer row p))
        × ((host_reply row.ip r (open_drawer row p)).drawer_ip ≡ some row.ip)
        × ((host_reply row.ip r (open_drawer row p)).drawer_loading ≡ false)
  unfolding host_reply open_drawer
  host_reply-open_drawer (ok (some resp)) = ground arith
  host_reply-open_drawer (ok none) = ground arith
  host_reply-open_drawer (thrown (api_error e)) = ground arith
  host_reply-open_drawer (thrown network_error) = ground arith
  host_reply-open_drawer (thrown syntax_error) = ground arith
  host_reply-open_drawer (thrown type_error) = ground arith

  -- If the drawer is closed and opened on another host before the reply for the first one, that
  -- reply still fills it: it shows the other host's address over the first host's traffic, and no
  -- longer says that it loads.
  pub host_reply_late :
      (other : TopTalker) (resp : HostTrafficResponse)
      → let late =
          host_reply row.ip
            (ok (some resp))
            (open_drawer other (close_drawer (open_drawer row p))) in
        (late.drawer_ip ≡ some other.ip)
        × (late.drawer_buckets ≡ resp.buckets)
        × (late.drawer_loading ≡ false)
  unfolding host_reply open_drawer close_drawer
  host_reply_late other resp = ground arith
