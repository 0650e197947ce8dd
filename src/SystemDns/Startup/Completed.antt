-- ===== src/SystemDns/Startup/Completed.antt =====
-- What a start of the managed DNS comes to, from the helper file to the published servers.
use android_lib_box_lite.Common.{true, false, Option, none, some, List, Str, ◌≡◌, ◌∷◌, ◌++◌, bytes}
use android_lib_box_lite.PluginPool.Paths.{join}
use android_lib_box_lite.SystemDns.{Snapshot, Endpoint}
use android_lib_box_lite.SystemDns.Source.{Config}
use android_lib_box_lite.SystemDns.Helper
use android_lib_box_lite.SystemDns.Helper.{File, regular, read_only, helper_filename, Files, Os}
use android_lib_box_lite.SystemDns.Helper.Matching
use android_lib_box_lite.SystemDns.Client.{
  Error, bad_helper_file, no_socketpair, no_connection, not_started, no_snapshot, Start, idle, read,
}
use android_lib_box_lite.SystemDns.Client.Following.{IsReleased, Fits}
use android_lib_box_lite.SystemDns.Startup.{Command, Service, without_helper, with_helper, exits}

-- The helper file is there, read-only and with the payload.
abbrev pub IsInstalled : Str → Files → Type 0
IsInstalled payload files =
    (f : File) × (files helper_filename ≡ some (regular f))
    × (f.content ≡ payload)
    × (f.mode ≡ read_only)

-- A process of the Android runtime with this file as its class path.
abbrev pub RunsFile : Str → Command → Type 0
RunsFile path cmd =
    (cmd.program ≡ bytes "/system/bin/app_process")
    × ((rest : List Str) × (cmd.arguments ≡ (bytes "-Djava.class.path=" ++ path) ∷ rest))
    × (cmd.own_group ≡ true)
    × (cmd.killed_with_core ≡ true)

module _ {A : Type 0} (socksaddr : Endpoint → A) (search : List Str)
    (parse_endpoint : Str → Option Endpoint) (decode : Str → Option Snapshot) (os : Os)
    (payload : Str) (files : Files) (s : Start) (before : Option (Config A)) where
  -- Why the start fails, and what has become of the helper file by then.
  abbrev IsStopped : Error → Files → Type 0
  IsStopped (bad_helper_file e) files' =
      Matching.IsCause os files e × (files' helper_filename ≡ files helper_filename)
  IsStopped no_socketpair files' = (s.socketpair_fails ≡ true) × IsInstalled payload files'
  IsStopped no_connection files' = (s.connection_fails ≡ true) × IsInstalled payload files'
  IsStopped not_started files' = (s.start_fails ≡ true) × IsInstalled payload files'
  IsStopped no_snapshot files' =
      (read parse_endpoint decode s.initial ≡ none) × IsInstalled payload files'

  abbrev pub Completed : Service A → Type 0
  Completed (without_helper files' c) =
      (s.is_managed ≡ false) × (files' ≡ files) × (c ≡ idle before)
  Completed (with_helper files' cmd c) =
      (s.is_managed ≡ true)
      × ((home : Str) × (os.absolute ≡ some home) × RunsFile (join home helper_filename) cmd)
      × IsInstalled payload files'
      × ((servers : List Str) × (read parse_endpoint decode s.initial ≡ some servers)
          × Fits socksaddr search parse_endpoint decode servers c)
  Completed (exits status e files' c) =
      (status ≡ 70) × IsStopped e files' × IsReleased c × (c.managed ≡ before)
