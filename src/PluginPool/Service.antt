-- ===== src/PluginPool/Service.antt =====
-- The plugins of the command line (native/pluginpool/service_android.go): `StartService` of the run
-- command, and `shutdown`, which a plugin that cannot be kept running calls.
pub mod Running
mod Examples
use android_lib_box_lite.Common.{
  ℕ, zero, suc, Bool, true, false, Option, none, some, List, Str, if◌then◌else◌,
}
use android_lib_box_lite.PluginPool.Options.{Options, Spec}
use android_lib_box_lite.PluginPool.Options
use android_lib_box_lite.PluginPool.World.{World, Os}
use android_lib_box_lite.PluginPool.Guards
use android_lib_box_lite.PluginPool.Host.{Host, new_host, close, apply}
use android_lib_box_lite.PluginPool.Envelope.{Read, Found, read_failed, parsed, read_envelope}

-- Why the core exits with status 70.
pub data Error : Type 0 where
  not_read : Str → Error
  bad_envelope : Options.Error → Error
  not_applied : Guards.Error → Error

-- The core goes on without plugins, exits and leaves the system as it is, or goes on with a host.
pub data Started : Type 0 where
  without_plugins : World → Started
  exits : Error → World → Started
  serves : Host → Started

abbrev applied : Host × Option Guards.Error → Started
applied (h, some e) = exits (not_applied e) h.world
applied (h, none) = serves h

module _ (spec_key : Str → Spec → Str) (os : Os) where
  abbrev start_found : Found → World → Started
  start_found (read_failed path) w = exits (not_read path) w
  start_found (parsed (Options.err e)) w = exits (bad_envelope e) w
  start_found (parsed (Options.ok none)) w = without_plugins w
  start_found (parsed (Options.ok (some o))) w =
      applied (apply spec_key os (some o) (new_host false w))

  -- `StartService`; the host has no protector.
  pub start_service : (Str → Option Options) → (Str → Read) → List Str → World → Started
  start_service decode read_file paths w = start_found (read_envelope decode read_file paths) w

-- The function that `StartService` returns, called when the core ends.
pub stop_service : Started → World
stop_service (without_plugins w) = w
stop_service (exits e w) = w
stop_service (serves h) = (close h).world

-- `failed`, the signals that the core has sent itself, and whether its exit after 10 seconds is armed.
pub record Core : Type 0 where
  pub failed : Bool
  pub signals : ℕ
  pub exit_armed : Bool

abbrev pub fresh_core : Core
fresh_core = record { failed = false; signals = 0; exit_armed = false }

-- `shutdown`
pub shutdown : Core → Core
shutdown c =
    if c.failed then c else record { failed = true; signals = suc c.signals; exit_armed = true }

-- `ExitCode`
pub exit_code : Core → ℕ
exit_code c = if c.failed then 70 else 0

-- As many failures as plugins report.
pub shutdowns : ℕ → Core → Core
shutdowns zero c = c
shutdowns (suc n) c = shutdowns n (shutdown c)
