-- ===== src/SystemDns/Toy.antt =====
-- What the examples of several modules use: a server is an endpoint on port 53, and a frame is its own
-- list of servers.
use android_lib_box_lite.Common.{true, false, Option, some, [], ◌∷◌, Str, ◌≡◌, ap, subst}
use android_lib_box_lite.Common.Strconv.{pos}
use android_lib_box_lite.SystemDns.{Snapshot, Endpoint}
use android_lib_box_lite.SystemDns.Client.Following.{IsParser}

abbrev pub endpoint : Str → Endpoint
endpoint server = record {
  text = server;
  port = 53;
  is_unspecified = false;
  is_loopback = false;
  is_multicast = false;
}

-- Stands for netip.ParseAddrPort.
abbrev pub parse_endpoint : Str → Option Endpoint
parse_endpoint server = some (endpoint server)

-- Stands for the JSON decoder.
abbrev pub decode : Str → Option Snapshot
decode frame = some (record { version = pos 1; servers = some (frame ∷ []); at_end = true })

abbrev pub text_of : Endpoint → Str
text_of e = e.text

pub parse_endpoint-IsParser : IsParser parse_endpoint
parse_endpoint-IsParser s e found =
    let same : endpoint s ≡ e = cc (found) in
    subst (λ (t : Str). parse_endpoint t ≡ some e) (ap text_of same) found
