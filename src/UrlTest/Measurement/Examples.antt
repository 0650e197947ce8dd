-- ===== src/UrlTest/Measurement/Examples.antt =====
-- A measurement with unified delay, whose second request takes 25 ms.
use android_lib_box_lite.Common.{true, some, [], Str, bytes, ◌≡◌}
use android_lib_box_lite.Common.Strconv.{pos}
use android_lib_box_lite.UrlTest.Network.{Context}
use android_lib_box_lite.UrlTest.Toy.{example_setting, example_attempts}
use android_lib_box_lite.UrlTest.Measurement.{context_of, run_with_timeout}
use android_lib_box_lite.UrlTest.Measurement.Release.{hold_all, run_with_timeout-Keeps}

abbrev link : Str
link = bytes "https://a"

abbrev short : Context
short = context_of example_setting true (pos 3000) example_attempts

run_with_timeout-Keeps_example :
    hold_all (run_with_timeout example_setting true true link (pos 3000) 1 example_attempts).1 []
    ≡ some []
run_with_timeout-Keeps_example =
    run_with_timeout-Keeps example_setting true true link (pos 3000) 1 example_attempts
