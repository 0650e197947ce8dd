-- ===== src/SystemDns/Helper/Examples.antt =====
-- A home directory with another version of the helper and a stale temporary.
use android_lib_box_lite.Common.{
  ◌*◌, ◌^◌, false, Option, none, some, [], ◌∷◌, Str, bytes, str_eq, if◌then◌else◌,
}
use android_lib_box_lite.SystemDns.Helper.{read_only, Node, regular, Files, Os}

abbrev stale_name : Str
stale_name = bytes ".system-dns-helper-1.dex"

abbrev new_name : Str
new_name = bytes ".system-dns-helper-2.dex"

abbrev file : Str → Node
file content = regular (record { content = content; mode = read_only; owner = 0; modified = 0 })

abbrev home : Files
home name =
    if str_eq name (bytes "system-dns-helper.dex")
    then some (file (bytes "old"))
    else if str_eq name stale_name
    then some (file (bytes "o"))
    else none

-- A new name is made up if it is free.
abbrev free : Option Node → Option Str
free none = some new_name
free (some n) = none

abbrev phone : Os
phone = record {
  user = 0;
  now = 100 * 10 ^ 9;
  absolute = some (bytes "/data");
  mkdir_fails = false;
  open_fails = false;
  stat_fails = false;
  read_fails = false;
  chmod_fails = false;
  glob = λ files. stale_name ∷ [];
  lstat_fails = λ name. false;
  remove_fails = λ name. false;
  create_temp = λ files. free (files new_name);
  write_fails = none;
  temp_chmod_fails = false;
  sync_fails = false;
  close_fails = false;
  rename_fails = false;
}
