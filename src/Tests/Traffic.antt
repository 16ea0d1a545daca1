-- ===== src/Tests/Traffic.antt =====
-- Runs of the page of the top talkers.
use mitigador.Base.{String, true, false, Option, none, some, List, [], ◌∷◌, ◌++◌, ◌≡◌, refl}
use mitigador.Api.Http.{Result, ok, thrown, api_error}
use mitigador.Api.Traffic.{TopTalker, DominantProto, HostBucket, HostTrafficResponse}
use mitigador.Browser.{runs, start}
use mitigador.Views.Traffic.Hidden.{run-hiding}
use mitigador.Views.Traffic.{
  Traffic, poll_host, host, load_host, start_host_polling, start_top_polling, initial, mount,
  mounted, unmount, open_drawer, close_drawer, not_found,
}
use mitigador.Views.Traffic.Events.{
  Event, open_row, closing, hiding, fires, host_replies, visibility, step, run, host_reply,
}
use mitigador.Views.Traffic.Polls.{IsTidy, run-IsTidy, unmount-run, mount-IsTidy, mounted-IsTidy}
use mitigador.Views.Traffic.Drawer.{host_reply_late}

abbrev talker : String → TopTalker
talker ip = record {
  ip = ip;
  hostgroup = none;
  bps = 1000;
  pps = 10;
  dominant_proto = DominantProto.udp;
}

abbrev visit : List Event
visit = open_row (talker "192.0.2.1") ∷ visibility false ∷ visibility true ∷ closing ∷ []

run-IsTidy_example : IsTidy (run visit (mount 800 initial))
run-IsTidy_example = run-IsTidy visit (mount-IsTidy 800)

unmount-run_example : runs 1 (unmount (run visit (mounted (mount 800 initial)))).intervals ≡ false
unmount-run_example = unmount-run 800 visit 1

abbrev unknown : Result (Option HostTrafficResponse)
unknown = thrown (api_error (record { status = 404; code = "not_found" }))

missing_host :
    (host_reply "192.0.2.1" unknown (open_drawer (talker "192.0.2.1") initial)).drawer_error
    ≡ some not_found
unfolding host_reply open_drawer
missing_host = refl

abbrev sample : HostBucket
sample = record {
  offset_s = 0;
  pps = 5;
  bps = 50;
  pps_udp = 5;
  bps_udp = 50;
  pps_icmp = 0;
  bps_icmp = 0;
  pps_other = 0;
  bps_other = 0;
}

abbrev first_host : HostTrafficResponse
first_host = record { ip = "192.0.2.1"; hostgroup = none; generated_at = ""; buckets = sample ∷ [] }

host_reply_late_example :
    let late = host_reply "192.0.2.1" (ok (some first_host)) (
      open_drawer (talker "192.0.2.2") (close_drawer (open_drawer (talker "192.0.2.1") initial))) in
    (late.drawer_ip ≡ some "192.0.2.2")
    × (late.drawer_buckets ≡ sample ∷ [])
    × (late.drawer_loading ≡ false)
host_reply_late_example =
    host_reply_late (talker "192.0.2.1") initial (talker "192.0.2.2") first_host

abbrev opened : Traffic
opened = run (open_row (talker "192.0.2.1") ∷ []) (mounted (mount 800 initial))

opened-IsTidy : IsTidy opened
opened-IsTidy =
    run-IsTidy (open_row (talker "192.0.2.1") ∷ [])
      (mounted-IsTidy (mount 800 initial) (mount-IsTidy 800))

-- The button closes the drawer, its interval fires, and a reply comes.
abbrev after_hiding : List Event
after_hiding = fires poll_host ∷ host_replies "192.0.2.1" unknown ∷ visibility true ∷ []

run-hiding_example :
    let q = run (hiding ∷ after_hiding) opened in
    (q.drawer_open ≡ false)
    × (runs 2 q.intervals ≡ true)
    × ((step (fires poll_host) q).calls ≡ q.calls ++ host "192.0.2.1" ∷ [])
run-hiding_example =
    run-hiding "192.0.2.1" 2 after_hiding opened opened-IsTidy
      (unfold run step open_drawer mounted mount load_host start_host_polling in refl)
      (unfold run step open_drawer mounted mount load_host start_host_polling start_top_polling
          start in
        refl)
      (refl, (refl, (refl, tt)))
