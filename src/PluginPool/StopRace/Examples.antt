-- ===== src/PluginPool/StopRace/Examples.antt =====
-- A stop request while the plugin runs, and one that comes between the start and `attach`.
use android_lib_box_lite.Common.{◌≤◌, ◌⊎◌, true, false, none, some, is_some, ◌≡◌, refl}
use android_lib_box_lite.PluginPool.StopRace.{
  store_child, stores, Guard, starting, forked, finished, Step, waiting, kill, attach,
  kill_attached, request_stop, fork, attaches, kills, requests_stop, Reach, here, next, new_guard,
}
use android_lib_box_lite.PluginPool.StopRace.Ending.{is_loop_step, loop_steps, stop_ends_loop}
use android_lib_box_lite.PluginPool.StopRace.Safety.{stop_reaches_process}

-- The request comes first: `attach` finds it and kills the process.
abbrev late : Guard
late = record {
  place = waiting 7;
  process = some 7;
  child = some 7;
  stopping = true;
  timer = false;
  sent = some kill;
}

late_reached : Reach new_guard late
unfolding attach store_child kill_attached request_stop
late_reached =
    next
      (next (next (next (next here (fork 7 refl)) requests_stop) (attaches 7 refl))
        (stores 7 true refl))
      (kills 7 refl)

stop_reaches_process_example : is_some late.sent ≡ true
stop_reaches_process_example = stop_reaches_process late 7 late_reached refl refl

-- The stop was requested while the plugin was being started.
abbrev early : Guard
early = record {
  place = starting;
  process = none;
  child = none;
  stopping = true;
  timer = false;
  sent = none;
}

abbrev early_forked : Guard
early_forked = record early { place = forked 7 }

abbrev early_reach : Reach early early_forked
early_reach = next here (fork 7 refl)

stop_ends_loop_example :
    (loop_steps early_reach ≤ 9)
    × ((early_forked.place ≡ finished)
        ⊎ ((g : Guard) × (s : Step early_forked g) × (is_loop_step s ≡ true)))
stop_ends_loop_example = stop_ends_loop early early_forked early_reach refl
