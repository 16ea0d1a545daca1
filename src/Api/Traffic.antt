-- ===== src/Api/Traffic.antt =====
-- The requests of web/src/api/traffic.ts.
use Prim.Native.String
use mitigador.Base.{ℕ, String, Option, List}
use mitigador.Api.Http.{Reply}
use mitigador.Api.Client.{CsrfBody, plain, api}
use mitigador.Api.Client.Effects.{Exec}

pub data DominantProto : Type 0 where
  udp icmp other : DominantProto

pub record TopTalker : Type 0 where
  pub ip : String
  pub hostgroup : Option String
  pub bps : ℕ
  pub pps : ℕ
  pub dominant_proto : DominantProto

pub record TopTalkersResponse : Type 0 where
  pub items : List TopTalker
  pub generated_at : String

pub record HostBucket : Type 0 where
  pub offset_s : ℕ
  pub pps : ℕ
  pub bps : ℕ
  pub pps_udp : ℕ
  pub bps_udp : ℕ
  pub pps_icmp : ℕ
  pub bps_icmp : ℕ
  pub pps_other : ℕ
  pub bps_other : ℕ

pub record HostTrafficResponse : Type 0 where
  pub ip : String
  pub hostgroup : Option String
  pub generated_at : String
  pub buckets : List HostBucket

unfoldable pub fetch_top20 :
    Reply CsrfBody → Reply TopTalkersResponse → Exec (Option TopTalkersResponse)
fetch_top20 csrf reply = api csrf reply "/api/traffic/top20" plain

-- `encode` is the language's `encodeURIComponent`.
unfoldable pub fetch_host_traffic :
    (encode : String → String)
    → Reply CsrfBody
    → Reply HostTrafficResponse
    → String
    → Exec (Option HostTrafficResponse)
fetch_host_traffic encode csrf reply ip =
    api csrf reply (String.◌++◌ "/api/traffic/host/" (encode ip)) plain
