-- ===== src/PluginPool/Options/Examples.antt =====
-- Two plugins, of which the second is unnamed, and the expansion of a reference.
use android_lib_box_lite.Common.{
  false, [], ◌∷◌, Str, bytes, str_eq, has, contains_any, is_any, map, ◌≡◌, ◌≢◌, ◌↔◌, refl,
}
use android_lib_box_lite.PluginPool.Paths.{is_abs, join}
use android_lib_box_lite.PluginPool.Options.{
  Spec, Options, ok, err, out_of_fuel, decimal, valid_file_name, starts_absolute, validate_files,
  validate_plugins, validate, expand,
}
use android_lib_box_lite.PluginPool.Options.Names.{Distinct, all_names, IsValid, named}
use android_lib_box_lite.PluginPool.Options.Validation.{validate_iff, validate-paths-Distinct}
use android_lib_box_lite.PluginPool.Options.Expansion.{Expands, expand_iff, expand-ne-out_of_fuel}

abbrev program : Str → Str → Str → Spec
program name command file = record {
  name = name;
  command = command ∷ [];
  environment = [];
  files = record { name = file; content = [] } ∷ [];
}

abbrev two : Options
two = record {
  working_dir = bytes "/plugins";
  protect_path = [];
  verify_peer = false;
  plugins =
      program (bytes "a") (bytes "/bin/a") (bytes "a.json")
      ∷ (program [] (bytes "/bin/b") (bytes "b.json") ∷ []);
}

abbrev two_named : Options
two_named = record {
  working_dir = bytes "/plugins";
  protect_path = [];
  verify_peer = false;
  plugins = named 0 two.plugins;
}

two_accepted : validate two ≡ ok two_named
unfolding validate validate_plugins validate_files valid_file_name starts_absolute is_abs str_eq has
    contains_any is_any decimal
two_accepted = refl

validate_iff_example :
    (validate two ≡ ok two_named)
    ↔ ((two_named ≡ record two { plugins = named 0 two.plugins }) × IsValid two_named)
validate_iff_example = validate_iff two two_named

validate-paths-Distinct_example :
    Distinct (map (join two_named.working_dir) (all_names two_named.plugins))
validate-paths-Distinct_example = validate-paths-Distinct two two_named two_accepted

expand_iff_example :
    (expand (bytes "--config=${file:a.json}") (bytes "/plugins") (bytes "a.json" ∷ [])
      ≡ ok (bytes "--config=/plugins/a.json"))
    ↔ Expands
        (bytes "/plugins")
        (bytes "a.json" ∷ [])
        (bytes "--config=${file:a.json}")
        (bytes "--config=/plugins/a.json")
expand_iff_example =
    expand_iff (bytes "--config=${file:a.json}") (bytes "/plugins") (bytes "a.json" ∷ [])
      (bytes "--config=/plugins/a.json")

expand-ne-out_of_fuel_example :
    expand (bytes "${file:a.json}${file:b.json}") (bytes "/plugins") (bytes "a.json" ∷ [])
    ≢ err out_of_fuel
expand-ne-out_of_fuel_example =
    expand-ne-out_of_fuel (bytes "${file:a.json}${file:b.json}") (bytes "/plugins")
      (bytes "a.json" ∷ [])
