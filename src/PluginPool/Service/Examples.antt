-- ===== src/PluginPool/Service/Examples.antt =====
-- The command line with an envelope beside its configuration.
use android_lib_box_lite.Common.{[], ◌∷◌, Str, bytes, str_eq, if◌then◌else◌}
use android_lib_box_lite.PluginPool.Toy.{calm, name_key, decode, clean_world, clean_world-IsClean}
use android_lib_box_lite.PluginPool.Host.Lifetime.{IsClean}
use android_lib_box_lite.PluginPool.Envelope.{
  Read, not_found, content, envelope_path, read_envelope,
}
use android_lib_box_lite.PluginPool.Service.{start_service, stop_service}
use android_lib_box_lite.PluginPool.Service.Running.{Fits, start_service-Fits}

abbrev read_file : Str → Read
read_file path =
    if str_eq path (envelope_path (bytes "/b/config.json"))
    then content (bytes "{one}")
    else not_found

start_service-Fits_example :
    let paths = bytes "/a/config.json" ∷ (bytes "/b/config.json" ∷ []) in
    Fits name_key calm clean_world
      (read_envelope decode read_file paths)
      (start_service name_key calm decode read_file paths clean_world)
    × IsClean (stop_service (start_service name_key calm decode read_file paths clean_world))
start_service-Fits_example =
    start_service-Fits name_key calm decode read_file
      (bytes "/a/config.json" ∷ (bytes "/b/config.json" ∷ [])) clean_world clean_world-IsClean
