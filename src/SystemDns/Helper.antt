-- ===== src/SystemDns/Helper.antt =====
-- native/systemdns/helper.go: the file of the DNS helper, which `ensureHelper` reuses or replaces. What
-- the system answers, with the names that Glob finds and that CreateTemp makes up, is a value of `Os`.
pub mod Matching
pub mod Temporaries
pub mod Replacement
mod Examples
use android_lib_box_lite.Common.{
  ℕ, suc, ◌-◌, ◌*◌, ◌^◌, Bool, true, false, not, ◌&&◌, ◌||◌, Option, none, some, List, [], ◌∷◌, Str,
  bytes, str_eq, cut_prefix, cut_suffix, is_some, ltb, ◌==◌, if◌then◌else◌, length, take, All, ◌≡◌,
}
use android_lib_box_lite.PluginPool.Paths.{join}

abbrev pub helper_filename : Str
helper_filename = bytes "system-dns-helper.dex"

-- `tempPattern`
pub is_temporary : Str → Bool
is_temporary name = elim (cut_prefix (bytes ".system-dns-helper-") name) [
  | none ↦ false
  | some rest ↦ is_some (cut_suffix rest (bytes ".dex"))
]

abbrev pub minute : ℕ
minute = 60 * 10 ^ 9

-- The modes 0400 and 0600.
abbrev pub read_only : ℕ
read_only = 256

abbrev pub private : ℕ
private = 384

pub record File : Type 0 where
  pub content : Str
  pub mode : ℕ
  pub owner : ℕ
  -- In nanoseconds.
  pub modified : ℕ

pub data Node : Type 0 where
  regular : File → Node
  symbolic_link : Node
  other_kind : Node

-- What the home directory holds, by name.
abbrev pub Files : Type 0
Files = Str → Option Node

abbrev pub put : Str → Option Node → Files → Files
put name entry files n = if str_eq name n then entry else files n

pub data Error : Type 0 where
  no_absolute_path not_created not_opened no_status not_regular not_read not_chmod : Error
  no_temporary not_written not_synced not_closed not_renamed : Error

pub record Os : Type 0 where
  pub user : ℕ
  pub now : ℕ
  -- filepath.Abs of the home directory.
  pub absolute : Option Str
  pub mkdir_fails : Bool
  -- Of the present helper file. Open fails with another error than ENOENT and ELOOP.
  pub open_fails : Bool
  pub stat_fails : Bool
  pub read_fails : Bool
  pub chmod_fails : Bool
  -- Of the temporaries.
  pub glob : Files → List Str
  pub lstat_fails : Str → Bool
  pub remove_fails : Str → Bool
  pub create_temp : Files → Option Str
  -- The part that a failed write has written.
  pub write_fails : Option Str
  pub temp_chmod_fails : Bool
  pub sync_fails : Bool
  pub close_fails : Bool
  pub rename_fails : Bool

-- What Glob and CreateTemp document: the names match the pattern, and a new one is new.
pub record IsOs (os : Os) : Type 0 where
  pub globbed : (files : Files) → All (λ name. is_temporary name ≡ true) (os.glob files)
  pub fresh :
      (files : Files) (name : Str)
      → os.create_temp files ≡ some name
      → (is_temporary name ≡ true) × (files name ≡ none)

module _ (os : Os) where
  -- os.Remove, whose error is dropped.
  abbrev remove : Str → Files → Files
  remove name files = if os.remove_fails name then files else put name none files

  abbrev is_stale : Str → Option Node → Bool
  is_stale name (some (regular f)) = not (os.lstat_fails name) && ltb minute (os.now - f.modified)
  is_stale name _ = false

  -- The loop of `removeStaleTemporaries`.
  pub remove_stale : List Str → Files → Files
  remove_stale [] files = files
  remove_stale (name ∷ names) files =
      remove_stale names (if is_stale name (files name) then remove name files else files)

  abbrev with_mode : ℕ → File → Files → Files
  with_mode mode f files = put helper_filename (some (regular (record f { mode = mode }))) files

  -- `helperMatches` after the checks of the content.
  abbrev checked_mode : File → Files → Files × (Bool × Option Error)
  checked_mode f files =
      if f.mode == read_only
      then (files, (true, none))
      else if os.chmod_fails
      then (files, (false, some not_chmod))
      else (with_mode read_only f files, (true, none))

  -- At most one byte more than the payload is read.
  abbrev checked_content : Str → File → Files → Files × (Bool × Option Error)
  checked_content payload f files =
      if not (f.owner == os.user) || not (length f.content == length payload)
      then (files, (false, none))
      else if os.read_fails
      then (files, (false, some not_read))
      else if not (str_eq (take (suc (length payload)) f.content) payload)
      then (files, (false, none))
      else checked_mode f files

  abbrev checked_node : Str → Node → Files → Files × (Bool × Option Error)
  checked_node payload symbolic_link files = (files, (false, none))
  checked_node payload other_kind files =
      if os.stat_fails then (files, (false, some no_status)) else (files, (false, some not_regular))
  checked_node payload (regular f) files =
      if os.stat_fails then (files, (false, some no_status)) else checked_content payload f files

  -- Open answers ENOENT where there is no file, and ELOOP where there is a symbolic link.
  abbrev helper_matches_at : Str → Option Node → Files → Files × (Bool × Option Error)
  helper_matches_at payload none files = (files, (false, none))
  helper_matches_at payload (some node) files = checked_node payload node files

  -- `helperMatches`
  pub helper_matches : Str → Files → Files × (Bool × Option Error)
  helper_matches payload files =
      if os.open_fails
      then (files, (false, some not_opened))
      else helper_matches_at payload (files helper_filename) files

  abbrev temporary : Str → ℕ → Option Node
  temporary content mode =
      some (regular (record { content = content; mode = mode; owner = os.user; modified = os.now }))

  -- From Write to Rename, on the temporary with this name. A failed Write leaves a part.
  abbrev fill : Str → Str → Str → Option Str → Files → Files × (Str × Option Error)
  fill path payload name (some part) files =
      (put name (temporary part private) files, ([], some not_written))
  fill path payload name none files =
      if os.temp_chmod_fails
      then (put name (temporary payload private) files, ([], some not_chmod))
      else let ready = put name (temporary payload read_only) files in
        if os.sync_fails
        then (ready, ([], some not_synced))
        else if os.close_fails
        then (ready, ([], some not_closed))
        else if os.rename_fails
        then (ready, ([], some not_renamed))
        else (put helper_filename (temporary payload read_only) (put name none ready), (path, none))

  -- The deferred os.Remove of the temporary.
  abbrev tidied : Str → Files × (Str × Option Error) → Files × (Str × Option Error)
  tidied name (files, result) = (remove name files, result)

  abbrev replace_by : Str → Str → Option Str → Files → Files × (Str × Option Error)
  replace_by path payload none files = (files, ([], some no_temporary))
  replace_by path payload (some name) files =
      tidied name (fill path payload name os.write_fails (put name (temporary [] private) files))

  abbrev replace : Str → Str → Files → Files × (Str × Option Error)
  replace path payload files =
      let swept = remove_stale (os.glob files) files in
      replace_by path payload (os.create_temp swept) swept

  abbrev reuse_or_replace : Str → Str → Files × (Bool × Option Error) → Files × (Str × Option Error)
  reuse_or_replace path payload (files, (matches, some e)) = (files, (path, some e))
  reuse_or_replace path payload (files, (true, none)) = (files, (path, none))
  reuse_or_replace path payload (files, (false, none)) = replace path payload files

  abbrev ensure_helper_in : Option Str → Str → Files → Files × (Str × Option Error)
  ensure_helper_in none payload files = (files, ([], some no_absolute_path))
  ensure_helper_in (some home) payload files =
      if os.mkdir_fails
      then (files, ([], some not_created))
      else reuse_or_replace (join home helper_filename) payload (helper_matches payload files)

  -- `ensureHelper`
  pub ensure_helper : Str → Files → Files × (Str × Option Error)
  ensure_helper payload files = ensure_helper_in os.absolute payload files
