-- ===== src/PluginPool/Stopping/Examples.antt =====
-- A plugin that rests, one that ends in time, one that has to be killed, and one that cannot be.
use android_lib_box_lite.Common.{◌+◌, ◌*◌, ◌≤◌, none, some, List, [], ◌∷◌, ◌≡◌}
use android_lib_box_lite.PluginPool.Guards.{pipe_grace}
use android_lib_box_lite.PluginPool.Stopping.{
  Plugin, resting, running, stuck, stop_grace, wait_limit, stop_guards_at,
}
use android_lib_box_lite.PluginPool.Stopping.Bounds.{count_stuck, stop_guards_at-le}

abbrev plugins : List Plugin
plugins = resting ∷ (running (some 200) 50 ∷ (running none 3000 ∷ (stuck ∷ [])))

stop_guards_at-le_example :
    let c = stop_guards_at plugins 100 in
    (100 ≤ c.now)
    × (c.now ≤ (100 + (stop_grace + pipe_grace)) + count_stuck plugins * wait_limit)
    × (c.overdue ≡ count_stuck plugins)
stop_guards_at-le_example = stop_guards_at-le plugins 100
