-- ===== src/PluginPool/Envelope/Examples.antt =====
-- An envelope beside the second of two configuration files.
use android_lib_box_lite.Common.{
  true, Option, none, some, [], ◌∷◌, Str, bytes, str_eq, if◌then◌else◌, ◌≡◌, ◌↔◌,
}
use android_lib_box_lite.PluginPool.Options.{Options, ok}
use android_lib_box_lite.PluginPool.Envelope.{parse, Read, not_found, content, envelope_path}
use android_lib_box_lite.PluginPool.Envelope.Lookup.{Describes, parse_iff}

abbrev one : Options
one = record {
  working_dir = bytes "/plugins";
  protect_path = bytes "/plugins/protect";
  verify_peer = true;
  plugins =
      record { name = bytes "a"; command = bytes "/bin/a" ∷ []; environment = []; files = [] } ∷ [];
}

-- Stands for json.Unmarshal.
abbrev decode : Str → Option Options
decode text = if str_eq text (bytes "{one}") then some one else none

abbrev read_file : Str → Read
read_file path =
    if str_eq path (envelope_path (bytes "/b/config.json"))
    then content (bytes "{one}")
    else not_found

parse_iff_example :
    (parse decode (bytes "{one}") ≡ ok (some one)) ↔ Describes decode (bytes "{one}") one
parse_iff_example = parse_iff decode (bytes "{one}") one
