-- ===== src/SystemDns/Helper/Replacement.antt =====
-- What `ensureHelper` leaves in the home directory.
use android_lib_box_lite.Common.{true, Option, none, some, Str, ◌≡◌, ◌⊎◌}
use android_lib_box_lite.PluginPool.Paths.{join}
use android_lib_box_lite.SystemDns.Helper.{
  helper_filename, is_temporary, read_only, File, regular, Files, Error, Os, IsOs, is_stale,
}
use android_lib_box_lite.SystemDns.Helper.Matching.{HasPayload, IsCause}

-- Nothing of a name has changed, or a stale temporary is gone, or one that cannot be removed is left.
abbrev pub IsTidyAt : Os → Files → Files → Str → Type 0
IsTidyAt os files files' name =
    (files' name ≡ files name)
    ⊎ ((is_temporary name ≡ true) × (is_stale os name (files name) ≡ true) × (files' name ≡ none))
    ⊎ ((is_temporary name ≡ true) × (os.remove_fails name ≡ true))

pub data Outcome (os : Os) (payload : Str) (files : Files)
    : Files × (Str × Option Error) → Type 0 where
  -- The file that is there is used, and read-only now; all else is as it was.
  reused :
      (home : Str) (files' : Files) (f : File)
      → os.absolute ≡ some home
      → HasPayload os payload files f
      → files' helper_filename ≡ some (regular (record f { mode = read_only }))
      → ((name : Str) → (files' name ≡ files name) ⊎ (name ≡ helper_filename))
      → Outcome os payload files (files', (join home helper_filename, none))
  -- There was no such file, and now there is.
  replaced :
      (home : Str) (files' : Files) (f : File)
      → os.absolute ≡ some home
      → ((g : File) → HasPayload os payload files g → ⊥)
      → HasPayload os payload files' f
      → f.mode ≡ read_only
      → ((name : Str) → IsTidyAt os files files' name ⊎ (name ≡ helper_filename))
      → Outcome os payload files (files', (join home helper_filename, none))
  -- An error leaves the helper file as it was.
  failed :
      (files' : Files) (path : Str) (e : Error)
      → IsCause os files e
      → files' helper_filename ≡ files helper_filename
      → ((name : Str) → IsTidyAt os files files' name)
      → Outcome os payload files (files', (path, some e))

module _ (os : Os) where
  module _ (laws : IsOs os) (files : Files) where
    module _ (payload home : Str) (absolute : os.absolute ≡ some home)
        (missing : (g : File) → HasPayload os payload files g → ⊥) where
      abbrev path : Str
      path = join home helper_filename
