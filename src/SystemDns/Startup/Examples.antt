-- ===== src/SystemDns/Startup/Examples.antt =====
-- A managed start in a home directory that has the helper file already.
use android_lib_box_lite.Common.{true, false, none, some, [], bytes, str_eq, if◌then◌else◌}
use android_lib_box_lite.SystemDns.Helper.{read_only, regular, Files, Os}
use android_lib_box_lite.SystemDns.Client.{Start}
use android_lib_box_lite.SystemDns.Startup.Completed.{Completed}

abbrev home : Files
home name =
    if str_eq name (bytes "system-dns-helper.dex")
    then some
        (regular (record { content = bytes "new"; mode = read_only; owner = 0; modified = 0 }))
    else none

abbrev phone : Os
phone = record {
  user = 0;
  now = 0;
  absolute = some (bytes "/data");
  mkdir_fails = false;
  open_fails = false;
  stat_fails = false;
  read_fails = false;
  chmod_fails = false;
  glob = λ files. [];
  lstat_fails = λ name. false;
  remove_fails = λ name. false;
  create_temp = λ files. none;
  write_fails = none;
  temp_chmod_fails = false;
  sync_fails = false;
  close_fails = false;
  rename_fails = false;
}

abbrev managed : Start
managed = record {
  is_managed = true;
  helper_error = none;
  socketpair_fails = false;
  connection_fails = false;
  start_fails = false;
  initial = some (bytes "1.1.1.1:53");
  ends_in_time = true;
}
