-- ===== src/UrlTest/Wire/Examples.antt =====
-- A request in the toy format.
use android_lib_box_lite.Common.{none, some, [], ◌∷◌, true, bytes, ◌≡◌, ◌≢◌, arith}
use android_lib_box_lite.Common.Strconv.{pos}
use android_lib_box_lite.UrlTest.Toy.{plain, plain-IsProtowire}
use android_lib_box_lite.UrlTest.Wire.{append_options, options_from_request}
use android_lib_box_lite.UrlTest.Wire.Reading.{options_from_request-ne-none}
use android_lib_box_lite.UrlTest.Wire.RoundTrip.{options_from_request-append_options}

options_from_request-ne-none_example : options_from_request plain (5 ∷ (2 ∷ (9 ∷ []))) ≢ none
options_from_request-ne-none_example =
    options_from_request-ne-none plain plain-IsProtowire (5 ∷ (2 ∷ (9 ∷ [])))

options_from_request-append_options_example :
    options_from_request plain (append_options plain (bytes "https://a") (pos 3000) 3)
    ≡ some (record { link = bytes "https://a"; timeout_ms = 3000; flags = 3 }, true)
options_from_request-append_options_example =
    options_from_request-append_options plain plain-IsProtowire (bytes "https://a") (pos 3000) 3
      (omega arith) (omega arith)
