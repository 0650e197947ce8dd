-- ===== src/PluginPool/Host/Prepared.antt =====
-- What `prepare` makes of a plugin: its arguments, its environment and its files.
mod Examples
use android_lib_box_lite.Common.{
  ℕ, suc, Bool, true, false, ◌&&◌, Option, none, some, List, [], ◌∷◌, ◌++◌, Str, bytes, str_eq,
  str_eq_iff, has, ◌≡◌, ◌≢◌, refl, sym, ap, ◌∙◌, subst, arith, All, All-append_left,
  All-append_right, map, ◌⊎◌, Bool-cases, Option-cases, if-split, inl, inr, cut, contains,
  if◌then◌else◌,
}
use android_lib_box_lite.Common.Variables.{is_variable, last_value, value_after, cut_entry}
use android_lib_box_lite.PluginPool.Options.{File, Spec, Options, starts_absolute, validate}
use android_lib_box_lite.PluginPool.Options
use android_lib_box_lite.PluginPool.Options.Validation.{validate_iff, join-Distinct}
use android_lib_box_lite.PluginPool.Options.Names.{
  Distinct, file_names, all_names, push, AbsoluteCommand, IsFileName, starts_absolute_iff,
  is_abs_iff, Distinct-append_iff,
}
use android_lib_box_lite.PluginPool.Options.Expansion.{Expands, plain, token, expand_iff}
use android_lib_box_lite.PluginPool.Paths.{is_abs, join}
use android_lib_box_lite.PluginPool.World.{World, Os}
use android_lib_box_lite.PluginPool.Host.Expanded.{
  names_of, ExpandsEach, no_value, one_value, Expands-is_abs, expanded_value,
  expand_all-ExpandsEach, expand_environment-last_value, last_value-append,
}
use android_lib_box_lite.PluginPool.Host.Written.{find_value, paths_in, Holds, write_files-Holds}
use android_lib_box_lite.PluginPool.Host.Parts.{build_guard_parts, launch_parts}
use android_lib_box_lite.PluginPool.Guards.{
  Guard, Command, command, pipe_grace, no_files, Result, ok, err, write_files, build_guard, launch,
  expand_all, expand_environment, Files, start,
}

-- What `validate` makes sure of for one plugin, and that its variables have names that an environment can
-- hold, each once as the keys of a map.
record IsReady (dir : Str) (spec : Spec) : Type 0 where
  absolute_command : starts_absolute spec.command ≡ true
  distinct_files : Distinct (paths_in dir spec.files)
  variables : All (λ k. is_variable k ≡ true) (names_of spec.environment)
  distinct_variables : Distinct (names_of spec.environment)

-- What exec is asked to run, in the world `w`.
pub record IsPrepared (os : Os) (dir : Str) (spec : Spec) (c : Command) (w : World) : Type 0 where
  pub absolute : is_abs c.program ≡ true
  pub arguments : ExpandsEach dir (push spec.files []) spec.command (c.program ∷ c.arguments)
  pub in_dir : c.dir ≡ dir
  -- A variable of the plugin has its expanded value, and any other that of the core.
  pub value_of :
      (key : Str)
      → last_value key c.environment none
        ≡ expanded_value dir
            (push spec.files [])
            (find_value key spec.environment)
            (last_value key os.environ none)
  pub written : All (Holds dir w.files) spec.files

-- The command of a guard whose arguments are those of the envelope.
commanded :
    (dir : Str) (names : List Str) (g : Guard) {values cmd : List Str}
    → starts_absolute values ≡ true
    → g.command ≡ cmd
    → ExpandsEach dir names values cmd
    → (c : Command) × (command g ≡ some c)
      × (is_abs c.program ≡ true)
      × ExpandsEach dir names values (c.program ∷ c.arguments)
      × (c.dir ≡ g.dir)
      × (c.environment ≡ g.environment)
unfolding command starts_absolute
commanded dir names g absolute e no_value = absurd (cc absolute)
commanded dir names g absolute e (one_value {expanded = program} {rest = arguments} x xs) = (
  record {
    program = program;
    arguments = arguments;
    dir = g.dir;
    environment = g.environment;
    wait_delay = pipe_grace;
    own_group = true;
    killed_with_core = true;
  },
  rw e refl,
  Expands-is_abs x absolute,
  one_value x xs,
  refl,
  refl,
)

ready-IsPrepared :
    (os : Os) (dir : Str) (spec : Spec) (w : World) {w' : World} {g : Guard}
    → IsReady dir spec
    → start os dir spec w ≡ (w', ok g)
    → (c : Command) × (command g ≡ some c) × IsPrepared os dir spec c w'
unfolding start
ready-IsPrepared os dir spec w {w'} {g} r e =
    let w0 = record w { next = suc w.next } in
    let (w1, fs) = write_files os dir spec.files w0 no_files in
    let (built, same_files) =
      launch_parts os dir spec fs.paths w1 (build_guard os dir spec w.next fs) e in
    let (complete, arguments, same_dir, (entries, variables, environment)) =
      build_guard_parts os dir spec w.next fs built in
    let (names, written) =
      write_files-Holds os dir spec.files w0 no_files r.distinct_files complete in
    let (c, commands, absolute, each, dir_of, environment_of) =
      commanded dir fs.names g r.absolute_command refl
        (expand_all-ExpandsEach dir fs.names spec.command arguments) in
    (
      c,
      commands,
      record {
        absolute = absolute;
        arguments =
            subst (λ (n : List Str). ExpandsEach dir n spec.command (c.program ∷ c.arguments)) names
              each;
        in_dir = dir_of ∙ same_dir;
        value_of = λ key.
            ap (λ (l : List Str). last_value key l none) (environment_of ∙ environment)
            ∙ last_value-append key os.environ entries none
            ∙ expand_environment-last_value dir fs.names key spec.environment _ variables
                r.variables r.distinct_variables
            ∙ ap
                (λ (n : List Str).
                  expanded_value dir n (find_value key spec.environment)
                    (last_value key os.environ none))
                names;
        written =
            subst (λ (l : List (Str × Str)). All (Holds dir l) spec.files) (sym same_files) written;
      },
    )

paths_in-map :
    (dir : Str) (files : List File) → paths_in dir files ≡ map (join dir) (file_names files)
paths_in-map dir [] = refl
paths_in-map dir (file ∷ files) =
    ap (λ (l : List Str). join dir file.name ∷ l) (paths_in-map dir files)

-- One plugin of a valid envelope.
valid_plugin :
    (before : List Spec) (spec : Spec) (after : List Spec)
    → All AbsoluteCommand (before ++ (spec ∷ after))
    → All IsFileName (all_names (before ++ (spec ∷ after)))
    → Distinct (all_names (before ++ (spec ∷ after)))
    → AbsoluteCommand spec
      × All IsFileName (file_names spec.files)
      × Distinct (file_names spec.files)
valid_plugin [] spec after commands valid distinct = (
  commands.0,
  All-append_left _ (file_names spec.files) (all_names after) valid,
  ((Distinct-append_iff (file_names spec.files) (all_names after)).0 distinct).0,
)
valid_plugin (b ∷ before) spec after commands valid distinct =
    let rest = all_names (before ++ (spec ∷ after)) in
    valid_plugin before spec after commands.1 (All-append_right _ (file_names b.files) rest valid)
      ((Distinct-append_iff (file_names b.files) rest).0 distinct).1

-- A plugin of an accepted envelope whose variables have names that an environment can hold, each once, and
-- that is started, runs an absolute path, never one that is looked up, with arguments that are what those of
-- the envelope stand for, in the working directory. A variable that the plugin sets has its expanded value,
-- in whatever order Go walks them, and any other the one it has in the core. Each of its files is written
-- whole.
pub start-IsPrepared :
    (os : Os) (o o' : Options) (before : List Spec) (spec : Spec) (after : List Spec) (w : World)
    {w' : World} {g : Guard}
    → validate o ≡ Options.ok o'
    → o'.plugins ≡ before ++ (spec ∷ after)
    → All (λ k. is_variable k ≡ true) (names_of spec.environment)
    → Distinct (names_of spec.environment)
    → start os o'.working_dir spec w ≡ (w', ok g)
    → (c : Command) × (command g ≡ some c) × IsPrepared os o'.working_dir spec c w'
start-IsPrepared os o o' before spec after w accepted listed variables distinct e =
    let v = ((validate_iff o o').0 accepted).1 in
    let (absolute, names, apart) =
      valid_plugin before spec after (rw listed at v.commands) (rw listed at v.file_names_valid)
        (rw listed at v.files_distinct) in
    ready-IsPrepared os o'.working_dir spec w
      (record {
        absolute_command = (starts_absolute_iff spec.command).1 absolute;
        distinct_files = subst Distinct (sym (paths_in-map o'.working_dir spec.files)) (
            join-Distinct o'.working_dir (file_names spec.files)
              ((is_abs_iff o'.working_dir).1 v.absolute_dir) names apart);
        variables = variables;
        distinct_variables = distinct;
      })
      e
