-- ===== src/SystemDns/Examples.antt =====
-- A frame with two servers, one of them twice.
use android_lib_box_lite.Common.{
  true, false, Option, none, some, is_some, List, [], ◌∷◌, Str, bytes, str_eq, if◌then◌else◌, ◌≡◌,
  ◌↔◌,
}
use android_lib_box_lite.Common.Strconv.{pos}
use android_lib_box_lite.SystemDns.{Snapshot, Endpoint, decode_snapshot}
use android_lib_box_lite.SystemDns.Accepted.{Accepts, decode_snapshot_iff}

-- Stands for netip.ParseAddrPort, on the texts below.
abbrev parse_endpoint : Str → Option Endpoint
parse_endpoint server =
    if str_eq server []
    then none
    else some (record {
      text = server;
      port = 53;
      is_unspecified = false;
      is_loopback = false;
      is_multicast = false;
    })

-- Stands for the JSON decoder.
abbrev decode : Str → Option Snapshot
decode frame = some (record {
  version = pos 1;
  servers = some (bytes "1.1.1.1:53" ∷ (bytes "8.8.8.8:53" ∷ (bytes "1.1.1.1:53" ∷ [])));
  at_end = true;
})

abbrev two_servers : List Str
two_servers = bytes "1.1.1.1:53" ∷ (bytes "8.8.8.8:53" ∷ [])

decode_snapshot_iff_example :
    (is_some (decode_snapshot parse_endpoint decode (bytes "{}")) ≡ true)
    ↔ Accepts parse_endpoint decode (bytes "{}")
decode_snapshot_iff_example = decode_snapshot_iff parse_endpoint decode (bytes "{}")
