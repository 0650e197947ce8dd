-- ===== src/PluginPool/World.antt =====
-- What the host does to the system: the files it writes, the sockets it listens on, the plugins that
-- run, and a trace of its calls. What the system answers to a start is a value of `Os`, and what it answers
-- to a stop, which the host ignores or only logs, is in the `World`.
use android_lib_box_lite.Common.{
  ℕ, Bool, true, false, List, [], ◌∷◌, ◌++◌, Str, str_eq, if◌then◌else◌, ◌≡◌, All,
}

pub data Event : Type 0 where
  stop_requested : ℕ → Event
  stop_awaited : ℕ → Event
  -- The error in the log that a plugin did not stop.
  not_stopped : ℕ → Event
  plugin_started : ℕ → Event
  socket_opened : Str → Event
  socket_closed : Str → Event
  stale_socket_removed : Str → Event

pub record World : Type 0 where
  -- Paths and contents of the plugin files that were written and that no os.Remove was tried on since.
  pub files : List (Str × Str)
  -- The plugin files that os.Remove failed on, which may still exist.
  pub left : List Str
  -- The paths that the protect server listens on.
  pub sockets : List Str
  -- The plugins that were started and not yet waited for, by number, and the number of the next one.
  pub running : List ℕ
  pub next : ℕ
  -- The plugins that waitStopped gave up waiting for, which may still run.
  pub overdue : List ℕ
  -- The calls so far, the latest last.
  pub trace : List Event
  -- The plugins that do not end within the limit of waitStopped, SIGKILL included. Each is waited for once.
  pub outlives : ℕ → Bool
  -- After these calls os.Remove fails on this path, and not because nothing is there.
  pub undeletable : List Event → Str → Bool

-- Only a plugin that outlives the limit was given up, and only a file that os.Remove failed on is left.
abbrev pub IsAccounted : World → Type 0
IsAccounted w =
    All (λ id. w.outlives id ≡ true) w.overdue
    × All (λ path. (calls : List Event) × (w.undeletable calls path ≡ true)) w.left

-- What a failed os.WriteFile leaves behind.
pub data Written : Type 0 where
  whole : Written
  not_created : Written
  partly : Str → Written

-- os.Lstat: nothing there, a socket, another kind of file, or an error.
pub data Lstat : Type 0 where
  absent socket other_kind unreadable : Lstat

pub record Os : Type 0 where
  pub mkdir_fails : World → Str → Bool
  pub write_file : World → Str → Written
  pub lstat : World → Str → Lstat
  -- os.Remove fails, and not because nothing is there.
  pub remove_fails : World → Str → Bool
  pub listen_fails : World → Str → Bool
  pub chmod_fails : World → Str → Bool
  -- cmd.Start of the first run of the plugin with this number.
  pub start_fails : World → ℕ → Bool
  -- The run loop of the plugin with this number has ended.
  pub exited : World → ℕ → Bool
  pub environ : List Str

unfoldable pub put_file : Str → Str → List (Str × Str) → List (Str × Str)
put_file path content [] = (path, content) ∷ []
put_file path content ((p, c) ∷ files) =
    if str_eq p path then (path, content) ∷ files else (p, c) ∷ put_file path content files

unfoldable pub remove_file : Str → List (Str × Str) → List (Str × Str)
remove_file path [] = []
remove_file path ((p, c) ∷ files) =
    let rest = remove_file path files in if str_eq p path then rest else (p, c) ∷ rest

unfoldable pub has_file : List (Str × Str) → Str → Bool
has_file [] path = false
has_file ((p, c) ∷ files) path = if str_eq p path then true else has_file files path

abbrev pub log : Event → World → World
log e w = record w { trace = w.trace ++ (e ∷ []) }

-- An os.Remove whose error is ignored.
unfoldable pub remove_path : Str → World → World
remove_path path w =
    if w.undeletable w.trace path
    then record w { files = remove_file path w.files; left = path ∷ w.left }
    else record w { files = remove_file path w.files }

-- `removeFiles`
unfoldable pub remove_files : List Str → World → World
remove_files [] w = w
remove_files (path ∷ paths) w = remove_files paths (remove_path path w)

unfoldable pub without_path : Str → List Str → List Str
without_path path [] = []
without_path path (p ∷ paths) =
    let rest = without_path path paths in if str_eq p path then rest else p ∷ rest

-- `protectServer.close`, which also unlinks the path.
unfoldable pub close_socket : Str → World → World
close_socket path w = log (socket_closed path) (record w { sockets = without_path path w.sockets })

unfoldable pub open_socket : Str → World → World
open_socket path w = log (socket_opened path) (record w { sockets = path ∷ w.sockets })
