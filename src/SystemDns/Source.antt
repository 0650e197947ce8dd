-- ===== src/SystemDns/Source.antt =====
-- patches/dns_systemconfig/source_managed.go, the DNS servers that the local transport of the core uses,
-- and environment/system_dns.go, which says when they are managed.
use android_lib_box_lite.Common.{
  ℕ, ◌*◌, ◌^◌, Bool, ◌&&◌, Option, none, List, Str, map, ◌==◌, if◌then◌else◌,
}
use android_lib_box_lite.SystemDns.{Endpoint}

-- systemconfig.Config, as far as it is set. `A` is the address type of the core.
pub record Config (A : Type 0) : Type 0 where
  -- In nanoseconds.
  pub timeout : ℕ
  pub attempts : ℕ
  pub search : List Str
  pub servers : List A

-- What `SetManagedServers` stores, where `socksaddr` is SocksaddrFromNetIP and `search` what
-- defaultSearch answers.
abbrev pub managed_servers : {A : Type 0} → (Endpoint → A) → List Str → List Endpoint → Config A
managed_servers socksaddr search endpoints = record {
  timeout = 5 * 10 ^ 9;
  attempts = 2;
  search = search;
  servers = map socksaddr endpoints;
}

-- `ManagedSystemDNS`
abbrev pub managed_system_dns : Bool → ℕ → Bool
managed_system_dns is_cli user = is_cli && user == 0

-- `managedConfiguration`, of what is stored.
abbrev pub managed_configuration : {A : Type 0} → Bool → Option (Config A) → Option (Config A)
managed_configuration is_managed stored = if is_managed then stored else none
