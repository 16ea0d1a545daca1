-- ===== src/Views/Traffic/Shown.antt =====
-- What the page of the top talkers and its drawer show (the template of
-- web/src/views/TrafficView.vue).
use mitigador.Base.{
  String, Bool, true, false, ◌&&◌, Option, none, some, List, [], ◌∷◌, map, eqb, length,
  if◌then◌else◌, ◌≡◌, arith,
}
use mitigador.Api.Http.{Result, ok, thrown, api_error, network_error, syntax_error, type_error}
use mitigador.Api.Traffic.{
  TopTalker, HostBucket, HostTrafficResponse, DominantProto, udp, icmp, other,
}
use mitigador.Format.{Label, Rounding, translated, text}
use mitigador.Format.Rates.{format_bps, format_pps}
use mitigador.Views.Traffic.{Traffic, Mode, DrawerError, fetch, not_found, open_drawer}
use mitigador.Views.Traffic.Events.{host_reply}

pub data ProtoTag : Type 0 where
  error warning success : ProtoTag

unfoldable pub proto_tag : DominantProto → ProtoTag
proto_tag udp = error
proto_tag icmp = warning
proto_tag other = success

unfoldable pub proto_label : DominantProto → Label
proto_label udp = translated "traffic.proto.udp" ∷ []
proto_label icmp = translated "traffic.proto.icmp" ∷ []
proto_label other = translated "traffic.proto.other" ∷ []

unfoldable pub group_label : Option String → Label
group_label none = translated "traffic.hostgroup.none" ∷ []
group_label (some hg) = text hg ∷ []

pub record Row : Type 0 where
  pub address : String
  pub group : Label
  pub bits : Label
  pub packets : Label
  pub tag : ProtoTag
  pub proto : Label

unfoldable pub row : Rounding → TopTalker → Row
unfolding proto_tag proto_label group_label
row r t = record {
  address = t.ip;
  group = group_label t.hostgroup;
  bits = format_bps r t.bps;
  packets = format_pps r t.pps;
  tag = proto_tag t.dominant_proto;
  proto = proto_label t.dominant_proto;
}

-- A table on a wide screen and cards on a narrow one, with the same rows.
pub data Shown : Type 0 where
  spinner banner empty : Shown
  table cards : List Row → Shown

shown_rows : Rounding → Bool → List TopTalker → Shown
unfolding row
shown_rows r mobile [] = empty
shown_rows r false (t ∷ ts) = table (map (row r) (t ∷ ts))
shown_rows r true (t ∷ ts) = cards (map (row r) (t ∷ ts))

unfoldable pub shown : Rounding → Traffic → Shown
unfolding shown_rows
shown r p =
    if p.loading_first
    then spinner
    else if p.top_error
    then banner
    else shown_rows r p.is_mobile p.rows

pub data DrawerShown : Type 0 where
  waiting gone failed : DrawerShown
  chart : List HostBucket → Mode → DrawerShown

alert_or_chart : Option DrawerError → List HostBucket → Mode → DrawerShown
alert_or_chart (some not_found) buckets mode = gone
alert_or_chart (some fetch) buckets mode = failed
alert_or_chart none buckets mode = chart buckets mode

unfoldable pub drawer_shown : Traffic → DrawerShown
unfolding alert_or_chart
drawer_shown p =
    if p.drawer_loading && eqb (length p.drawer_buckets) 0
    then waiting
    else alert_or_chart p.drawer_error p.drawer_buckets p.mode

-- What the drawer has to show for a reply to its request.
abbrev pub answer : Mode → Result (Option HostTrafficResponse) → DrawerShown
answer mode (ok (some resp)) = chart resp.buckets mode
answer mode (ok none) = failed
answer mode (thrown (api_error e)) = if eqb e.status 404 then gone else failed
answer mode (thrown _) = failed

-- A drawer that is opened shows that it waits, and, when its reply comes, the host's traffic for a
-- success with a body, that the host is gone for the status 404, and else an error.
drawer_shown-host_reply :
    (row : TopTalker) (p : Traffic) (r : Result (Option HostTrafficResponse))
    → (drawer_shown (open_drawer row p) ≡ waiting)
      × (drawer_shown (host_reply row.ip r (open_drawer row p)) ≡ answer p.mode r)
unfolding drawer_shown host_reply open_drawer
drawer_shown-host_reply row p (ok (some resp)) = ground arith
drawer_shown-host_reply row p (ok none) = ground arith
drawer_shown-host_reply row p (thrown (api_error e)) = ground arith
drawer_shown-host_reply row p (thrown network_error) = ground arith
drawer_shown-host_reply row p (thrown syntax_error) = ground arith
drawer_shown-host_reply row p (thrown type_error) = ground arith
