-- ===== src/CommandServer/Refinement.antt =====
-- The command server does to its plugins what the app sees.
use android_lib_box_lite.Common.{Bool, Option, none, some, Str}
use android_lib_box_lite.PluginPool.Options.{Options, Spec}
use android_lib_box_lite.PluginPool.World.{World, Os}
use android_lib_box_lite.PluginPool.Guards
use android_lib_box_lite.PluginPool.Host.{Host}
use android_lib_box_lite.PluginPool.Host.Refinement.{IsNamed}
use android_lib_box_lite.CommandServer.{Error, Server, Overlap}
use android_lib_box_lite.CommandServer.View.{Running, view, service_start, Move}

-- A server that listens has a path.
abbrev Named : Option Running → Type 0
Named none = IsNamed none
Named (some (plugins, server)) = IsNamed server

module _ (spec_key : Str → Spec → Str) where
  module _ (os : Os) (decode : Str → Option Options) (m : Overlap) (content : Str)
      (s : Server) where
    abbrev IsMove : Bool → Server × Option Error → Type 0
    IsMove fails (t, answer) =
        Move spec_key (view s) (service_start os decode m fails content) answer (view t)
