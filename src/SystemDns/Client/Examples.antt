-- ===== src/SystemDns/Client/Examples.antt =====
-- A helper that sends one server, and then is stopped.
use android_lib_box_lite.Common.{
  true, false, none, some, [], ◌∷◌, Str, bytes, str_eq, has, ◌≡◌, refl,
}
use android_lib_box_lite.SystemDns.{is_usable, unique_endpoints, decode_snapshot}
use android_lib_box_lite.SystemDns.Toy.{parse_endpoint, decode, text_of, parse_endpoint-IsParser}
use android_lib_box_lite.SystemDns.Client.{
  Client, idle, Start, Started, disabled, fails, serves, start, helper_ended, stop, update, read,
  started, exits, stops,
}
use android_lib_box_lite.SystemDns.Client.Following.{Fits}
use android_lib_box_lite.SystemDns.Client.Starting.{Reach-Fits}

abbrev phone : Start
phone = record {
  is_managed = true;
  helper_error = none;
  socketpair_fails = false;
  connection_fails = false;
  start_fails = false;
  initial = some (bytes "1.1.1.1:53");
  ends_in_time = true;
}

abbrev client_of : Started Str → Client Str
client_of (disabled c) = c
client_of (fails e c) = c
client_of (serves c) = c

abbrev first : Client Str
first = client_of (start text_of [] parse_endpoint decode phone (idle none))

first-read : read parse_endpoint decode phone.initial ≡ some (bytes "1.1.1.1:53" ∷ [])
unfolding decode_snapshot unique_endpoints is_usable str_eq has
first-read = refl

first-serves : start text_of [] parse_endpoint decode phone (idle none) ≡ serves first
unfolding decode_snapshot unique_endpoints is_usable str_eq has start update
first-serves = refl

Reach-Fits_example :
    Fits text_of [] parse_endpoint decode (bytes "1.1.1.1:53" ∷ []) (stop true (helper_ended first))
Reach-Fits_example =
    Reach-Fits text_of [] parse_endpoint decode (stop true (helper_ended first))
      (bytes "1.1.1.1:53" ∷ []) parse_endpoint-IsParser
      (stops true
        (exits (started phone none first (bytes "1.1.1.1:53" ∷ []) first-serves first-read)))
