-- ===== src/PluginPool/Guards.antt =====
-- One plugin of native/pluginpool/host.go: `start` with `prepare`, and `stopGuards` with `waitStopped`.
use android_lib_box_lite.Common.{
  ℕ, suc, Bool, true, false, Option, none, some, List, [], ◌∷◌, ◌++◌, Str, bytes, without,
  if◌then◌else◌,
}
use android_lib_box_lite.PluginPool.Options.{Options, Spec, File, expand}
use android_lib_box_lite.PluginPool.Options
use android_lib_box_lite.PluginPool.Paths.{join}
use android_lib_box_lite.PluginPool.World.{
  World, Os, stop_requested, stop_awaited, not_stopped, plugin_started, Written, whole, not_created,
  partly, log, put_file, remove_files,
}

pub data Error : Type 0 where
  host_closed : Error
  no_protector : Error
  not_a_socket stale_not_removed listen_failed chmod_failed : Str → Error
  mkdir_failed : Str → Error
  write_failed : Str → Str → Error
  bad_reference : Str → Options.Error → Error
  start_failed : Str → Error

pub data Result {ℓ} (A : Type ℓ) : Type ℓ where
  ok : A → Result A
  err : Error → Result A

pub record Guard : Type 0 where
  pub id : ℕ
  pub name : Str
  pub dir : Str
  pub command : List Str
  pub environment : List Str
  pub paths : List Str

-- The exec.Cmd of `command`: WaitDelay is in milliseconds, and SysProcAttr asks for a process group of
-- its own and for SIGKILL when the core dies. Both streams go to the writer of the guard.
pub record Command : Type 0 where
  pub program : Str
  pub arguments : List Str
  pub dir : Str
  pub environment : List Str
  pub wait_delay : ℕ
  pub own_group : Bool
  pub killed_with_core : Bool

abbrev pub pipe_grace : ℕ
pipe_grace = 500

-- `command`; a guard without a first argument would panic.
unfoldable pub command : Guard → Option Command
command g = elim g.command [
  | [] ↦ none
  | program ∷ arguments ↦ some (record {
    program = program;
    arguments = arguments;
    dir = g.dir;
    environment = g.environment;
    wait_delay = pipe_grace;
    own_group = true;
    killed_with_core = true;
  })
]

-- The first loop of `prepare`. A path is tracked before its file is written. The result is the
-- tracked paths, the written names, and the path whose write failed.
pub record Files : Type 0 where
  pub paths : List Str
  pub names : List Str
  pub failed : Option Str

abbrev pub wrote : Str → Str → World → Written → World
wrote path content w whole = record w { files = put_file path content w.files }
wrote path content w not_created = w
wrote path content w (partly c) = record w { files = put_file path c w.files }

abbrev pub is_whole : Written → Bool
is_whole whole = true
is_whole not_created = false
is_whole (partly c) = false

unfoldable pub write_files : Os → Str → List File → World → Files → World × Files
write_files os dir [] w fs = (w, fs)
write_files os dir (file ∷ files) w fs =
    let path = join dir file.name in
    let outcome = os.write_file w path in
    let w' = wrote path file.content w outcome in
    let tracked = record fs { paths = path ∷ fs.paths } in
    let rest = write_files os dir files w' (record tracked { names = file.name ∷ fs.names }) in
    if is_whole outcome then rest else (w', record tracked { failed = some path })

-- The second loop of `prepare`.
unfoldable pub expand_all : Str → List Str → List Str → Options.Result (List Str)
expand_all dir names [] = Options.ok []
expand_all dir names (argument ∷ arguments) =
    Options.◌>>=◌ (expand argument dir names)
      λ a. Options.◌>>=◌ (expand_all dir names arguments) λ rest. Options.ok (a ∷ rest)

-- The third loop of `prepare`: the variables of the plugin behind those of the core.
unfoldable pub expand_environment : Str → List Str → List (Str × Str) → Options.Result (List Str)
expand_environment dir names [] = Options.ok []
expand_environment dir names ((key, value) ∷ variables) =
    Options.◌>>=◌ (expand value dir names) λ v.
      Options.◌>>=◌ (expand_environment dir names variables)
        λ rest. Options.ok ((key ++ (bytes "=" ++ v)) ∷ rest)

abbrev pub no_files : Files
no_files = record { paths = []; names = []; failed = none }

-- `prepare` and the first start of `run` give a guard, or an error after which no file is left.
unfoldable pub build_guard : Os → Str → Spec → ℕ → Files → Result Guard
build_guard os dir spec id fs = elim fs.failed [
  | some path ↦ err (write_failed spec.name path)
  | none ↦ elim (expand_all dir fs.names spec.command) [
    | Options.err e ↦ err (bad_reference spec.name e)
    | Options.ok command ↦ elim (expand_environment dir fs.names spec.environment) [
      | Options.err e ↦ err (bad_reference spec.name e)
      | Options.ok variables ↦ ok (record {
        id = id;
        name = spec.name;
        dir = dir;
        command = command;
        environment = os.environ ++ variables;
        paths = fs.paths;
      })
    ]
  ]
]

unfoldable pub launch : Os → Spec → List Str → World → Result Guard → World × Result Guard
launch os spec paths w (err e) = (remove_files paths w, err e)
launch os spec paths w (ok g) =
    if os.start_fails w g.id
    then (remove_files paths w, err (start_failed spec.name))
    else (log (plugin_started g.id) (record w { running = w.running ++ (g.id ∷ []) }), ok g)

-- `start`
unfoldable pub start : Os → Str → Spec → World → World × Result Guard
start os dir spec w =
    let id = w.next in
    let (w', fs) = write_files os dir spec.files (record w { next = suc id }) no_files in
    launch os spec fs.paths w' (build_guard os dir spec id fs)

-- `stopGuards`: every plugin is asked to stop before any is waited for.
unfoldable pub request_stops : List Guard → World → World
request_stops [] w = w
request_stops (g ∷ gs) w = request_stops gs (log (stop_requested g.id) w)

-- The select of `waitStopped`: the loop of the plugin ends, or the timer fires first and the plugin,
-- which may run on, is reported and given up.
unfoldable pub wait_done : Guard → World → World
wait_done g w =
    let w' = record w { running = without g.id w.running } in
    if w.outlives g.id
    then log (not_stopped g.id) (record w' { overdue = w.overdue ++ (g.id ∷ []) })
    else log (stop_awaited g.id) w'

-- `waitStopped`
unfoldable pub await_stop : Guard → World → World
await_stop g w = remove_files g.paths (wait_done g w)

unfoldable pub await_stops : List Guard → World → World
await_stops [] w = w
await_stops (g ∷ gs) w = await_stops gs (await_stop g w)

unfoldable pub stop_guards : List Guard → World → World
stop_guards gs w = await_stops gs (request_stops gs w)
