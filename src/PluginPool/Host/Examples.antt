-- ===== src/PluginPool/Host/Examples.antt =====
-- A host that starts one plugin, is reloaded, fails and is closed.
use android_lib_box_lite.Common.{
  true, false, none, some, List, [], ◌∷◌, ◌++◌, Str, bytes, str_eq, has, ◌≡◌, refl,
}
use android_lib_box_lite.PluginPool.Toy.{calm, name_key, clean_world}
use android_lib_box_lite.PluginPool.Options.{Options, Spec}
use android_lib_box_lite.PluginPool.World.{
  Os, partly, has_file, put_file, open_socket, close_socket, remove_path, remove_files,
}
use android_lib_box_lite.PluginPool.Paths.{join}
use android_lib_box_lite.PluginPool.Host.{
  Host, guards_of, find_guard, stop_all, close, listen_at, replace_stale, listen_protect,
  update_server, start_each, start_missing, kept, removed, drop_unwanted, apply,
}
use android_lib_box_lite.PluginPool.Guards.{
  host_closed, write_files, expand_all, expand_environment, build_guard, launch, start, stop_guards,
  request_stops, wait_done, await_stop, await_stops,
}
use android_lib_box_lite.PluginPool.Host.Reported.{late}
use android_lib_box_lite.PluginPool.Host.Consistency.{IsConsistent, IsStopped}
use android_lib_box_lite.PluginPool.Host.Calls.{
  apply-IsConsistent, apply_failed-IsStopped, close_lem,
}
use android_lib_box_lite.PluginPool.Host.Spared.{IsRenewed, apply-IsRenewed}
use android_lib_box_lite.PluginPool.Host.Pool.{Call, applies, closes, view, run_all, Moves}
use android_lib_box_lite.PluginPool.Host.Refinement.{run_all-Moves}

-- The disk is full.
abbrev full : Os
full = record calm { write_file = λ w path. partly [] }

abbrev plugin : Str → Spec
plugin name = record {
  name = name;
  command = [];
  environment = [];
  files = record { name = bytes "config"; content = bytes "{}" } ∷ [];
}

abbrev serving : List Spec → Options
serving plugins = record {
  working_dir = bytes "/plugins";
  protect_path = bytes "/protect";
  verify_peer = true;
  plugins = plugins;
}

abbrev empty_host : Host
empty_host = record {
  has_protector = true;
  closed = false;
  guards = [];
  server = none;
  world = clean_world;
}

empty_host-IsConsistent : IsConsistent empty_host
unfolding guards_of has_file
empty_host-IsConsistent = record {
  supervised = refl;
  distinct = tt;
  given_out = tt;
  owned = λ p e. cc;
  listening = refl;
  accounted = (tt, tt);
}

-- The host after its first envelope.
abbrev one_plugin : Host
one_plugin = (apply name_key calm (some (serving (plugin (bytes "a") ∷ []))) empty_host).0

one_plugin-IsConsistent : IsConsistent one_plugin
one_plugin-IsConsistent =
    apply-IsConsistent name_key calm (some (serving (plugin (bytes "a") ∷ []))) empty_host
      empty_host-IsConsistent

one_plugin_runs : one_plugin.world.running ≡ 0 ∷ []
unfolding apply drop_unwanted kept removed stop_guards guards_of request_stops await_stops
    update_server listen_protect replace_stale listen_at open_socket start_missing start_each
    find_guard start write_files build_guard expand_all expand_environment launch put_file str_eq
one_plugin_runs = refl

apply-IsConsistent_example :
    IsConsistent (apply name_key full (some (serving (plugin (bytes "b") ∷ []))) one_plugin).0
apply-IsConsistent_example =
    apply-IsConsistent name_key full (some (serving (plugin (bytes "b") ∷ []))) one_plugin
      one_plugin-IsConsistent

apply-IsRenewed_example :
    IsRenewed name_key calm
      (some (serving (plugin (bytes "a") ∷ (plugin (bytes "b") ∷ []))))
      one_plugin
      (apply name_key calm
        (some (serving (plugin (bytes "a") ∷ (plugin (bytes "b") ∷ []))))
        one_plugin).0
unfolding apply drop_unwanted kept removed stop_guards guards_of request_stops await_stops
    update_server listen_protect replace_stale listen_at open_socket start_missing start_each
    find_guard start write_files build_guard expand_all expand_environment launch put_file str_eq
    has
apply-IsRenewed_example =
    apply-IsRenewed name_key calm (some (serving (plugin (bytes "a") ∷ (plugin (bytes "b") ∷ []))))
      one_plugin one_plugin-IsConsistent refl

-- A plugin that outlives the limit is given up, and its file is left where os.Remove fails.
abbrev stuck_host : Host
stuck_host = record one_plugin {
  world = record one_plugin.world { outlives = λ id. true; undeletable = λ calls path. true };
}

stuck_host_closed :
    ((close stuck_host).world.overdue ≡ 0 ∷ [])
    × ((close stuck_host).world.left ≡ join (bytes "/plugins") (bytes "config") ∷ [])
unfolding close apply drop_unwanted kept removed stop_all stop_guards guards_of request_stops
    await_stop await_stops wait_done remove_path remove_files close_socket update_server
    listen_protect replace_stale listen_at open_socket start_missing start_each start write_files
    build_guard launch expand_all expand_environment find_guard str_eq has
stuck_host_closed = (refl, refl)

apply_failed-IsStopped_example :
    IsStopped (apply name_key full (some (serving (plugin (bytes "b") ∷ []))) one_plugin).0
unfolding apply drop_unwanted kept removed stop_all stop_guards guards_of request_stops await_stop
    await_stops update_server listen_protect replace_stale listen_at open_socket start_missing
    start_each find_guard start write_files build_guard expand_all expand_environment launch
    put_file str_eq has
apply_failed-IsStopped_example =
    apply_failed-IsStopped name_key full (some (serving (plugin (bytes "b") ∷ []))) one_plugin
      one_plugin-IsConsistent refl refl

close_example :
    IsConsistent (close one_plugin)
    × (one_plugin.closed ≡ false
        → IsStopped (close one_plugin)
          × ((close one_plugin).world.overdue
              ≡ one_plugin.world.overdue
                ++ late one_plugin.world.outlives (guards_of one_plugin.guards)))
    × (close (close one_plugin) ≡ close one_plugin)
    × (apply name_key calm none (close one_plugin) ≡ (close one_plugin, some host_closed))
close_example = close_lem name_key calm none one_plugin one_plugin-IsConsistent

-- A reload, a full disk, a start after it, a Close and a late call.
abbrev some_calls : List Call
some_calls =
    applies calm (some (serving (plugin (bytes "a") ∷ [])))
    ∷ (applies full (some (serving (plugin (bytes "b") ∷ [])))
        ∷ (applies calm (some (serving (plugin (bytes "b") ∷ [])))
            ∷ (closes ∷ (applies calm none ∷ []))))

run_all-Moves_example :
    Moves name_key
      (view empty_host)
      (run_all name_key some_calls empty_host).1
      (view (run_all name_key some_calls empty_host).0)
    × IsConsistent (run_all name_key some_calls empty_host).0
run_all-Moves_example =
    run_all-Moves name_key some_calls empty_host (empty_host-IsConsistent, λ s e. cc)
