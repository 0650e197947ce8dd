-- ===== src/PluginPool/Host.antt =====
-- `Host` of native/pluginpool/host.go: Apply, Close and what they call, with `listenProtect` of
-- native/pluginpool/protect.go. One call runs under the host's lock, so it is one function here.
pub mod Stop
pub mod Reported
mod Start
pub mod Consistency
mod Steps
mod Listening
pub mod Calls
pub mod Extension
pub mod Reload
pub mod Lifetime
pub mod Numbers
pub mod Spared
pub mod Pool
pub mod Expanded
pub mod Parts
pub mod Prepared
pub mod Written
pub mod Refinement
mod Examples
use android_lib_box_lite.Common.{
  Bool, true, false, not, ◌&&◌, Option, none, some, List, [], ◌∷◌, ◌++◌, Str, str_eq, has,
  if◌then◌else◌,
}
use android_lib_box_lite.PluginPool.Options.{Options, Spec}
use android_lib_box_lite.PluginPool.Options
use android_lib_box_lite.PluginPool.World.{
  World, Os, stale_socket_removed, Lstat, absent, socket, other_kind, unreadable, log, close_socket,
  open_socket,
}
use android_lib_box_lite.PluginPool.Guards.{
  Error, Result, Guard, ok, err, host_closed, no_protector, not_a_socket, stale_not_removed,
  listen_failed, chmod_failed, mkdir_failed, start, stop_guards,
}

pub record Server : Type 0 where
  pub path : Str
  pub verify : Bool

-- `guards` is the map of the running plugins; its keys are those of `specKey`.
pub record Host : Type 0 where
  pub has_protector : Bool
  pub closed : Bool
  pub guards : List (Str × Guard)
  pub server : Option Server
  pub world : World

-- `NewHost`; the world is what earlier hosts have left.
abbrev pub new_host : Bool → World → Host
new_host has_protector w = record {
  has_protector = has_protector;
  closed = false;
  guards = [];
  server = none;
  world = w;
}

pub guards_of : List (Str × Guard) → List Guard
guards_of [] = []
guards_of ((key, g) ∷ guards) = g ∷ guards_of guards

pub find_guard : Str → List (Str × Guard) → Option Guard
find_guard key [] = none
find_guard key ((k, g) ∷ guards) = if str_eq k key then some g else find_guard key guards

abbrev close_server : Option Server → World → World
close_server none w = w
close_server (some s) w = close_socket s.path w

-- `stopAll`
pub stop_all : Host → Host
stop_all h = record h {
  guards = [];
  server = none;
  world = close_server h.server (stop_guards (guards_of h.guards) h.world);
}

-- `Close`
pub close : Host → Host
close h = if h.closed then h else stop_all (record h { closed = true })

-- `listenProtect`: a socket that a killed core left is replaced, and nothing else.
pub listen_at : Os → Str → World → World × Option Error
listen_at os path w =
    if os.listen_fails w path
    then (w, some (listen_failed path))
    else let w' = open_socket path w in
      if os.chmod_fails w' path
      then (close_socket path w', some (chmod_failed path))
      else (w', none)

pub replace_stale : Os → Str → World → Lstat → World × Option Error
replace_stale os path w absent = listen_at os path w
replace_stale os path w socket =
    if os.remove_fails w path
    then (w, some (stale_not_removed path))
    else listen_at os path (log (stale_socket_removed path) w)
replace_stale os path w other_kind = (w, some (not_a_socket path))
replace_stale os path w unreadable = (w, some (stale_not_removed path))

pub listen_protect : Os → Str → World → World × Option Error
listen_protect os path w = replace_stale os path w (os.lstat w path)

abbrev listened : Str → Bool → Host → World × Option Error → Host × Option Error
listened path verify h (w, some e) = (record h { world = w }, some e)
listened path verify h (w, none) =
    (record h { world = w; server = some (record { path = path; verify = verify }) }, none)

abbrev new_server : Os → Str → Bool → Host → Host × Option Error
new_server os path verify h =
    if str_eq path []
    then (h, none)
    else if h.has_protector
    then listened path verify h (listen_protect os path h.world)
    else (h, some no_protector)

abbrev protect_path_of : Option Options → Str
protect_path_of none = []
protect_path_of (some o) = o.protect_path

abbrev verify_of : Option Options → Bool
verify_of none = false
verify_of (some o) = o.verify_peer

abbrev replace_server : Os → Str → Bool → Host → Option Server → Host × Option Error
replace_server os path verify h none = new_server os path verify h
replace_server os path verify h (some s) =
    if str_eq s.path path
    then (record h { server = some (record s { verify = verify }) }, none)
    else new_server os path verify (record h { server = none; world = close_socket s.path h.world })

-- `updateServer`
pub update_server : Os → Option Options → Host → Host × Option Error
update_server os options h =
    replace_server os (protect_path_of options) (verify_of options) h h.server

abbrev started : Str → Host → World × Result Guard → Host × Option Error
started key h (w, err e) = (record h { world = w }, some e)
started key h (w, ok g) = (record h { world = w; guards = h.guards ++ ((key, g) ∷ []) }, none)

abbrev pub and_then : Host × Option Error → (Host → Host × Option Error) → Host × Option Error
and_then (h, some e) k = (h, some e)
and_then (h, none) k = k h

-- What json.Marshal gives for a plugin and its directory (`specKey`) is a parameter.
module _ (spec_key : Str → Spec → Str) where
  abbrev start_one : Os → Str → Spec → Host → Host × Option Error
  start_one os dir spec h = elim (find_guard (spec_key dir spec) h.guards) [
    | some g ↦ (h, none)
    | none ↦ started (spec_key dir spec) h (start os dir spec h.world)
  ]

  -- The loop of `startMissing`.
  pub start_each : Os → Str → List Spec → Host → Host × Option Error
  start_each os dir [] h = (h, none)
  start_each os dir (spec ∷ specs) h = and_then (start_one os dir spec h) (start_each os dir specs)

  pub start_missing : Os → Options → Host → Host × Option Error
  start_missing os o h =
      if os.mkdir_fails h.world o.working_dir
      then (h, some (mkdir_failed o.working_dir))
      else start_each os o.working_dir o.plugins h

  abbrev pub keys_of : Str → List Spec → List Str
  keys_of dir [] = []
  keys_of dir (spec ∷ specs) = spec_key dir spec ∷ keys_of dir specs

  abbrev pub wanted_keys : Option Options → List Str
  wanted_keys none = []
  wanted_keys (some o) = keys_of o.working_dir o.plugins

  abbrev keeps : Os → World → List Str → Str × Guard → Bool
  keeps os w wanted (key, g) = has wanted key && not (os.exited w g.id)

  pub kept : Os → World → List Str → List (Str × Guard) → List (Str × Guard)
  kept os w wanted [] = []
  kept os w wanted (g ∷ guards) =
      let rest = kept os w wanted guards in if keeps os w wanted g then g ∷ rest else rest

  pub removed : Os → World → List Str → List (Str × Guard) → List (Str × Guard)
  removed os w wanted [] = []
  removed os w wanted (g ∷ guards) =
      let rest = removed os w wanted guards in if keeps os w wanted g then rest else g ∷ rest

  -- Plugins that are no longer wanted, or have ended, are stopped before any is started.
  pub drop_unwanted : Os → Option Options → Host → Host
  drop_unwanted os options h =
      let wanted = wanted_keys options in
      record h {
        guards = kept os h.world wanted h.guards;
        world = stop_guards (guards_of (removed os h.world wanted h.guards)) h.world;
      }

  abbrev start_wanted : Os → Option Options → Host → Host × Option Error
  start_wanted os none h = (h, none)
  start_wanted os (some o) h = start_missing os o h

  abbrev stop_on_error : Host × Option Error → Host × Option Error
  stop_on_error (h, none) = (h, none)
  stop_on_error (h, some e) = (stop_all h, some e)

  -- `Apply`
  pub apply : Os → Option Options → Host → Host × Option Error
  apply os options h =
      if h.closed
      then (h, some host_closed)
      else stop_on_error (
          and_then (update_server os options (drop_unwanted os options h))
            (start_wanted os options))
