-- ===== src/CommandServer/Examples.antt =====
-- A command server that starts one plugin and closes it again.
use android_lib_box_lite.Common.{true, false, some, List, [], ◌∷◌, bytes, ◌≡◌, arith}
use android_lib_box_lite.PluginPool.Toy.{calm, name_key, decode, clean_world, clean_world-IsClean}
use android_lib_box_lite.PluginPool.Host.{new_host}
use android_lib_box_lite.PluginPool.Envelope.{parse}
use android_lib_box_lite.CommandServer.{
  alone, closed_first, closed_then, Server, new_server, start_or_reload, close_plugins,
  plugin_failed, here, next, starts,
}
use android_lib_box_lite.CommandServer.Outcomes.{Outcome, start_or_reload-Outcome}
use android_lib_box_lite.CommandServer.Failures.{past_failure-ignored}
use android_lib_box_lite.CommandServer.View.{Call, service_start, service_close, host_failure}

abbrev idle : Server
idle = new_server true clean_world

abbrev started : Server
started = (start_or_reload name_key calm decode alone false (bytes "{one}") idle).0

abbrev restarted : Server
restarted =
    (start_or_reload name_key calm decode alone false (bytes "{one}") (close_plugins started)).0

start_or_reload-Outcome_example :
    Outcome name_key calm
      (parse decode (bytes "{one}"))
      true
      idle
      (start_or_reload name_key calm decode alone true (bytes "{one}") idle)
start_or_reload-Outcome_example =
    start_or_reload-Outcome name_key calm decode true (bytes "{one}") idle clean_world-IsClean

-- Host 0 is there, without plugins.
abbrev present : Server
present = record {
  current = some (0, new_host true clean_world);
  next = 1;
  world = clean_world;
  has_handler = true;
  stops = 0;
}

abbrev replaced : Server
replaced =
    (start_or_reload name_key calm decode alone false (bytes "{one}") (close_plugins present)).0

past_failure-ignored_example : plugin_failed 0 replaced ≡ replaced
past_failure-ignored_example =
    past_failure-ignored name_key 0 present replaced (omega arith)
      (next here (starts calm decode alone false (bytes "{one}")))

-- A start, a failure, an envelope that is not valid, two starts that are closed
-- meanwhile, and a close.
abbrev some_calls : List Call
some_calls =
    service_start calm decode alone false (bytes "{one}")
    ∷ (host_failure 0
        ∷ (service_start calm decode alone false (bytes "{")
            ∷ (service_start calm decode closed_first true (bytes "{one}")
                ∷ (service_start calm decode closed_then false (bytes "{one}")
                    ∷ (service_close ∷ [])))))
