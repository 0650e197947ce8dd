-- ===== src/SystemDns.antt =====
-- `decodeSnapshot` of native/systemdns/protocol.go. What encoding/json makes of a frame and what
-- netip.ParseAddrPort makes of a server are parameters.
pub mod Accepted
pub mod Helper
pub mod Source
pub mod Client
pub mod Startup
pub mod Toy
mod Examples
use android_lib_box_lite.Common.{
  ℕ, Bool, true, false, not, ◌&&◌, Option, none, some, List, [], ◌∷◌, Str, has, leb, ◌==◌,
  if◌then◌else◌, length,
}
use android_lib_box_lite.Common.Strconv.{ℤ, pos, negsuc}

-- A decoded frame: `servers` is none for null or an absent field, and `at_end` says that a second
-- Decode meets the end of the frame.
pub record Snapshot : Type 0 where
  pub version : ℤ
  pub servers : Option (List Str)
  pub at_end : Bool

-- What decodeSnapshot asks of a netip.AddrPort.
pub record Endpoint : Type 0 where
  pub text : Str
  pub port : ℕ
  pub is_unspecified : Bool
  pub is_loopback : Bool
  pub is_multicast : Bool

abbrev pub max_servers : ℕ
max_servers = 32

abbrev is_version_one : ℤ → Bool
is_version_one (pos n) = n == 1
is_version_one (negsuc n) = false

pub is_usable : Endpoint → Bool
is_usable e = e.port == 53 && (not e.is_unspecified && (not e.is_loopback && not e.is_multicast))

abbrev prepend : Str → Option (List Str) → Option (List Str)
prepend server none = none
prepend server (some servers) = some (server ∷ servers)

module _ (parse_endpoint : Str → Option Endpoint) where
  -- The loop over the servers; `seen` are the endpoints so far.
  pub unique_endpoints : List Str → List Str → Option (List Str)
  unique_endpoints [] seen = some []
  unique_endpoints (server ∷ servers) seen = elim (parse_endpoint server) [
    | none ↦ none
    | some e ↦
        let skipped = unique_endpoints servers seen in
        let kept = prepend e.text (unique_endpoints servers (e.text ∷ seen)) in
        if is_usable e then (if has seen e.text then skipped else kept) else none
  ]

  abbrev within_limit : List Str → Option (List Str)
  within_limit servers =
      if leb (length servers) max_servers then unique_endpoints servers [] else none

  abbrev servers_of : Option (List Str) → Option (List Str)
  servers_of none = none
  servers_of (some servers) = within_limit servers

  abbrev checked : Bool → Option (List Str) → Option (List Str)
  checked true servers = servers_of servers
  checked false servers = none

  pub decode_snapshot : (Str → Option Snapshot) → Str → Option (List Str)
  decode_snapshot decode frame = elim (decode frame) [
    | none ↦ none
    | some s ↦ checked (s.at_end && is_version_one s.version) s.servers
  ]
