-- ===== src/PluginPool/Toy.antt =====
-- A system where every call succeeds, and one plugin: what the examples of several modules start from.
use android_lib_box_lite.Common.{
  true, false, Option, none, some, [], ◌∷◌, Str, bytes, str_eq, refl, if◌then◌else◌,
}
use android_lib_box_lite.PluginPool.Options.{Options, Spec}
use android_lib_box_lite.PluginPool.World.{World, Os, whole, absent, has_file}
use android_lib_box_lite.PluginPool.Host.Lifetime.{IsClean}

abbrev pub calm : Os
calm = record {
  mkdir_fails = λ w dir. false;
  write_file = λ w path. whole;
  lstat = λ w path. absent;
  remove_fails = λ w path. false;
  listen_fails = λ w path. false;
  chmod_fails = λ w path. false;
  start_fails = λ w id. false;
  exited = λ w id. false;
  environ = [];
}

abbrev pub name_key : Str → Spec → Str
name_key dir spec = spec.name

abbrev pub one_plugin : Options
one_plugin = record {
  working_dir = bytes "/plugins";
  protect_path = bytes "/protect";
  verify_peer = true;
  plugins =
      record {
        name = bytes "a";
        command = bytes "/bin/a" ∷ [];
        environment = [];
        files = record { name = bytes "config"; content = bytes "{}" } ∷ [];
      }
      ∷ [];
}

-- Stands for json.Unmarshal.
abbrev pub decode : Str → Option Options
decode text = if str_eq text (bytes "{one}") then some one_plugin else none

abbrev pub clean_world : World
clean_world = record {
  files = [];
  left = [];
  sockets = [];
  running = [];
  next = 0;
  overdue = [];
  trace = [];
  outlives = λ id. false;
  undeletable = λ calls path. false;
}

pub clean_world-IsClean : IsClean clean_world
unfolding has_file
clean_world-IsClean = record {
  none_running = refl;
  no_file = λ path. refl;
  no_socket = refl;
  accounted = (tt, tt);
}
