-- ===== src/UrlTest/Daemon/Examples.antt =====
-- The daemon with a manager of three outbounds, and a request for its default outbound.
use android_lib_box_lite.Common.{
  ℕ, Bool, true, false, none, some, [], Str, bytes, str_eq, ◌≡◌, refl, arith,
}
use android_lib_box_lite.Common.Strconv.{ℤ, pos}
use android_lib_box_lite.UrlTest.Toy.{
  plain, plain-IsProtowire, direct, manager, manager-IsManager, example_setting, example_attempts,
}
use android_lib_box_lite.UrlTest.Wire.{unified_delay, ignore_handshake_time}
use android_lib_box_lite.UrlTest.Measurement.{has_flag}
use android_lib_box_lite.UrlTest.Groups.{Outbound}
use android_lib_box_lite.UrlTest.Network.{Error, Result, ok}
use android_lib_box_lite.UrlTest.Daemon.{
  Instance, History, to, target, test_with_options, handle_request, client_request,
}
use android_lib_box_lite.UrlTest.Daemon.Recording.{IsRecorded, test_with_options-IsRecorded}
use android_lib_box_lite.UrlTest.Daemon.Requests.{run_on, answer_of, handle_request-client_request}

abbrev no_history : History
no_history tag = none

abbrev instance_of_core : Instance
instance_of_core = record {
  has_context = true;
  unified = true;
  manager = some manager;
  history = some no_history;
}

abbrev tag_of : Outbound → Str
tag_of o = o.tag

abbrev always : Outbound → Str → ℤ → ℕ → Result ℕ
always o link timeout_ms flags = ok 12

default_found : target (some instance_of_core) [] ≡ to instance_of_core manager direct
unfolding target str_eq
default_found = refl

test_with_options-IsRecorded_example :
    IsRecorded instance_of_core manager
      (bytes "d")
      (ok 12)
      no_history
      (test_with_options tag_of always (some instance_of_core) [] (bytes "https://a") (pos 3000) 0)
test_with_options-IsRecorded_example =
    test_with_options-IsRecorded tag_of always (some instance_of_core) [] (bytes "https://a")
      (pos 3000) 0 instance_of_core manager direct no_history manager-IsManager default_found refl
      refl

abbrev never : Outbound → Bool
never o = false

abbrev no_status : Error → Bool
no_status e = false

handle_request-client_request_example :
    let run = run_on example_setting true never (λ o. example_attempts) in
    (flags : ℕ) × (has_flag flags unified_delay ≡ true)
    × (has_flag flags ignore_handshake_time ≡ false)
    × (handle_request plain never no_status tag_of run
          (some instance_of_core)
          (client_request plain (bytes "d") (bytes "https://a") (pos 3000) true false)
        ≡ answer_of never no_status
            (test_with_options tag_of run
              (some instance_of_core)
              (bytes "d")
              (bytes "https://a")
              (pos 3000)
              flags)
            (target (some instance_of_core) (bytes "d")))
handle_request-client_request_example =
    handle_request-client_request example_setting true never (λ o. example_attempts) never no_status
      tag_of plain (some instance_of_core) (bytes "d") (bytes "https://a") (pos 3000) true false
      plain-IsProtowire (omega arith)
