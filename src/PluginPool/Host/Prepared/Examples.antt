-- ===== src/PluginPool/Host/Prepared/Examples.antt =====
-- A plugin whose arguments and variables refer to its file.
use android_lib_box_lite.Common.{
  false, some, [], ◌∷◌, Str, bytes, str_eq, has, is_any, contains_any, cut, cut_prefix, contains,
  ◌≡◌, refl,
}
use android_lib_box_lite.PluginPool.Toy.{calm, clean_world}
use android_lib_box_lite.PluginPool.Options.{
  Spec, Options, starts_absolute, expand, expand_loop, validate, validate_plugins, validate_files,
  valid_file_name,
}
use android_lib_box_lite.PluginPool.Paths.{
  is_abs, join, clean, clean_part, behind_slashes, split_path,
}
use android_lib_box_lite.PluginPool.World.{Os, put_file}
use android_lib_box_lite.PluginPool.Guards.{
  Guard, Command, command, start, write_files, expand_all, expand_environment, build_guard, launch,
}
use android_lib_box_lite.PluginPool.Host.Prepared.{IsPrepared, start-IsPrepared}

abbrev with_path : Os
with_path = record calm { environ = bytes "PATH=/bin" ∷ (bytes "MODE=slow" ∷ []) }

abbrev configured : Spec
configured = record {
  name = bytes "a";
  command = bytes "/bin/a" ∷ (bytes "${file:c}" ∷ []);
  environment = (bytes "CONFIG", bytes "${file:c}") ∷ ((bytes "MODE", bytes "fast") ∷ []);
  files = record { name = bytes "c"; content = bytes "{}" } ∷ [];
}

abbrev dir : Str
dir = bytes "/plugins"

abbrev prepared : Guard
prepared = record {
  id = 0;
  name = bytes "a";
  dir = dir;
  command = bytes "/bin/a" ∷ (bytes "/plugins/c" ∷ []);
  environment =
      bytes "PATH=/bin"
      ∷ (bytes "MODE=slow" ∷ (bytes "CONFIG=/plugins/c" ∷ (bytes "MODE=fast" ∷ [])));
  paths = bytes "/plugins/c" ∷ [];
}

abbrev accepted : Options
accepted = record {
  working_dir = dir;
  protect_path = [];
  verify_peer = false;
  plugins = configured ∷ [];
}

start-IsPrepared_example :
    (c : Command) × (command prepared ≡ some c)
    × IsPrepared with_path dir configured c (start with_path dir configured clean_world).0
unfolding start write_files expand_all expand_environment build_guard launch put_file str_eq has
    expand expand_loop cut cut_prefix contains join clean clean_part behind_slashes split_path
    is_abs validate validate_plugins validate_files valid_file_name starts_absolute contains_any
    is_any
start-IsPrepared_example =
    start-IsPrepared with_path accepted accepted [] configured [] clean_world refl refl
      (refl, (refl, tt)) (((λ e. cc), tt), (tt, tt)) refl
