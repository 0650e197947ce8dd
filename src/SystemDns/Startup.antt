-- ===== src/SystemDns/Startup.antt =====
-- `StartService` of native/systemdns/client_android.go: `ensureHelper` and `Start` together, with the
-- command line of the helper process.
pub mod Completed
mod Examples
use android_lib_box_lite.Common.{
  ℕ, Bool, true, false, Option, none, some, List, [], ◌∷◌, ◌++◌, Str, bytes, if◌then◌else◌,
}
use android_lib_box_lite.SystemDns.{Snapshot, Endpoint}
use android_lib_box_lite.SystemDns.Source.{Config}
use android_lib_box_lite.SystemDns.Helper
use android_lib_box_lite.SystemDns.Helper.{Files, Os, ensure_helper}
use android_lib_box_lite.SystemDns.Client.{
  Client, Error, Start, Started, disabled, fails, serves, start, idle,
}

-- The exec.Cmd of the helper. The child's end of the socket pair is its stdin and the descriptor 3; its
-- process group is its own, and SIGKILL reaches it when the core dies.
pub record Command : Type 0 where
  pub program : Str
  pub arguments : List Str
  pub own_group : Bool
  pub killed_with_core : Bool

abbrev pub helper_command : Str → Command
helper_command path = record {
  program = bytes "/system/bin/app_process";
  arguments =
      (bytes "-Djava.class.path=" ++ path)
      ∷ (bytes "/"
          ∷ (bytes "--nice-name=libbox-system-dns"
              ∷ (bytes "libbox.systemdns.SystemDnsHelper" ∷ (bytes "3" ∷ []))));
  own_group = true;
  killed_with_core = true;
}

-- What the command goes on with, or the status that it exits with.
pub data Service (A : Type 0) : Type 0 where
  without_helper : Files → Client A → Service A
  with_helper : Files → Command → Client A → Service A
  exits : ℕ → Error → Files → Client A → Service A

-- The helper file, which only a managed start asks for.
abbrev ensured : Os → Str → Bool → Files → Files × (Str × Option Helper.Error)
ensured os payload managed files =
    if managed then ensure_helper os payload files else (files, ([], none))

abbrev served : {A : Type 0} → Files → Str → Started A → Service A
served files path (disabled c) = without_helper files c
served files path (fails e c) = exits 70 e files c
served files path (serves c) = with_helper files (helper_command path) c

module _ {A : Type 0} (socksaddr : Endpoint → A) (search : List Str)
    (parse_endpoint : Str → Option Endpoint) (decode : Str → Option Snapshot) where
  abbrev with_file : Start → Option (Config A) → Files × (Str × Option Helper.Error) → Service A
  with_file s before (files, (path, e)) =
      served files path
        (start socksaddr search parse_endpoint decode (record s { helper_error = e }) (idle before))

  -- `StartService`; the error of the helper file in `s` is replaced by that of ensureHelper.
  pub start_service : Os → Str → Files → Start → Option (Config A) → Service A
  start_service os payload files s before =
      with_file s before (ensured os payload s.is_managed files)
