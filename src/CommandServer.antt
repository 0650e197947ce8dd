-- ===== src/CommandServer.antt =====
-- The plugin support of `CommandServer` (patches/experimental_libbox/command_server_plugins.go), on
-- top of the plugin host. There is one command server, so the map `pluginHosts` has one entry at most.
pub mod Soundness
pub mod Outcomes
pub mod Failures
pub mod View
pub mod Refinement
mod Examples
use android_lib_box_lite.Common.{
  ℕ, suc, Bool, true, false, ◌&&◌, Option, none, some, Str, ◌==◌, if◌then◌else◌, ◌≡◌,
}
use android_lib_box_lite.PluginPool.Options.{Options, Spec}
use android_lib_box_lite.PluginPool.Options
use android_lib_box_lite.PluginPool.World.{World, Os}
use android_lib_box_lite.PluginPool.Guards
use android_lib_box_lite.PluginPool.Host.{Host, new_host, close, apply}
use android_lib_box_lite.PluginPool.Envelope.{parse}

-- The errors of StartOrReloadServiceWithPlugins: that of Parse, that of Apply, or that of
-- StartOrReloadService, which belongs to the core.
pub data Error : Type 0 where
  bad_envelope : Options.Error → Error
  plugins_failed : Guards.Error → Error
  service_failed : Error

pub record Server : Type 0 where
  -- The entry of `pluginHosts`, with a number that stands for the address of the host.
  pub current : Option (ℕ × Host)
  pub next : ℕ
  -- The system while there is no host.
  pub world : World
  -- The handler is not nil; how often its ServiceStop was called.
  pub has_handler : Bool
  pub stops : ℕ

-- `closePlugins`
abbrev close_current : Option (ℕ × Host) → Server → Server
close_current none s = s
close_current (some (id, h)) s = record s { current = none; world = (close h).world }

pub close_plugins : Server → Server
close_plugins s = close_current s.current s

-- `pluginHost`: the present host, or a new one.
abbrev host_or_new : Option (ℕ × Host) → Server → (ℕ × Host) × Server
host_or_new (some (id, h)) s = ((id, h), s)
host_or_new none s =
    let entry : ℕ × Host = (s.next, new_host true s.world) in
    (entry, record s { current = some entry; next = suc s.next })

pub plugin_host : Server → (ℕ × Host) × Server
plugin_host s = host_or_new s.current s

-- The call of StartOrReloadService.
abbrev start_service : Bool → Server → Server × Option Error
start_service true s = (close_plugins s, some service_failed)
start_service false s = (s, none)

abbrev with_host : ℕ → Server → Host → Server
with_host id s h = record s { current = some (id, h) }

abbrev applied : Bool → ℕ → Server → Host × Option Guards.Error → Server × Option Error
applied service_fails id s (h, some e) = (close_plugins (with_host id s h), some (plugins_failed e))
applied service_fails id s (h, none) = start_service service_fails (with_host id s h)

-- Where closePlugins of another goroutine comes in a start: nowhere, between pluginHost and Apply, or
-- between Apply and StartOrReloadService. Elsewhere it changes nothing more.
pub data Overlap : Type 0 where
  alone closed_first closed_then : Overlap

-- The rest of the call, once its host is closed and out of the map.
abbrev applied_apart : Bool → Server → Option Guards.Error → Server × Option Error
applied_apart service_fails s (some e) = (close_plugins s, some (plugins_failed e))
applied_apart service_fails s none = start_service service_fails s

module _ (spec_key : Str → Spec → Str) (os : Os) where
  abbrev apply_plugins : Overlap → Bool → Options → (ℕ × Host) × Server → Server × Option Error
  apply_plugins alone service_fails o ((id, h), s) =
      applied service_fails id s (apply spec_key os (some o) h)
  apply_plugins closed_first service_fails o ((id, h), s) =
      applied_apart service_fails (close_plugins s) (apply spec_key os (some o) (close h)).1
  apply_plugins closed_then service_fails o ((id, h), s) =
      let (h', e) = apply spec_key os (some o) h in
      applied_apart service_fails (close_plugins (with_host id s h')) e

  abbrev start_parsed :
      Overlap → Bool → Options.Result (Option Options) → Server → Server × Option Error
  start_parsed m service_fails (Options.err e) s = (s, some (bad_envelope e))
  start_parsed m service_fails (Options.ok none) s = start_service service_fails (close_plugins s)
  start_parsed m service_fails (Options.ok (some o)) s =
      apply_plugins m service_fails o (plugin_host s)

  -- `StartOrReloadServiceWithPlugins`; whether the core starts the service is an argument.
  pub start_or_reload :
      (Str → Option Options) → Overlap → Bool → Str → Server → Server × Option Error
  start_or_reload decode m service_fails content s =
      start_parsed m service_fails (parse decode content) s

abbrev is_current : ℕ → Option (ℕ × Host) → Bool
is_current id none = false
is_current id (some (id', h)) = id' == id

-- `pluginFailed`, called with the host whose plugin cannot be kept running.
pub plugin_failed : ℕ → Server → Server
plugin_failed id s =
    if is_current id s.current && s.has_handler then record s { stops = suc s.stops } else s

-- `protectPluginSocket`: without a platform interface it is an error; else the platform answers.
pub protect_plugin_socket : Option (ℕ → Bool) → ℕ → Bool
protect_plugin_socket none fd = false
protect_plugin_socket (some control) fd = control fd

abbrev pub new_server : Bool → World → Server
new_server has_handler w = record {
  current = none;
  next = 0;
  world = w;
  has_handler = has_handler;
  stops = 0;
}

-- What happens to the server: the calls of the app, one start at a time, and the failures of hosts, old
-- and new.
pub data Step (spec_key : Str → Spec → Str) (s : Server) : Server → Type 0 where
  starts :
      (os : Os) (decode : Str → Option Options) (m : Overlap) (service_fails : Bool) (content : Str)
      → Step spec_key s (start_or_reload spec_key os decode m service_fails content s).0
  closes : Step spec_key s (close_plugins s)
  host_fails : (id : ℕ) → Step spec_key s (plugin_failed id s)

pub data Reach (spec_key : Str → Spec → Str) (s : Server) : Server → Type 0 where
  here : Reach spec_key s s
  next : {t u : Server} → Reach spec_key s t → Step spec_key t u → Reach spec_key s u
