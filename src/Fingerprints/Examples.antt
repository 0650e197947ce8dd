-- ===== src/Fingerprints/Examples.antt =====
-- The names that `init` and the aliases give, on names that are in lower case.
use android_lib_box_lite.Common.{some, is_some, Str, bytes, has, ◌≡◌, arith}
use android_lib_box_lite.Fingerprints.Tables.{Profile, lookup, modern_fingerprints}
use android_lib_box_lite.Fingerprints.Lookup.{IsListed}
use android_lib_box_lite.Fingerprints.{init, client_hello_id}
use android_lib_box_lite.Fingerprints.Known.{known_names, client_hello_id_known}

abbrev lower : Str → Str
lower name = name

client_hello_id_known_example :
    (is_some (client_hello_id lower (init 3 modern_fingerprints) (bytes "chrome_pq"))
      ≡ has known_names (bytes "chrome_pq"))
    × ((p : Profile) × (key : Str) × (lookup (bytes "random") (init 3 modern_fingerprints) ≡ some p)
        × IsListed (key, some p) modern_fingerprints)
client_hello_id_known_example =
    client_hello_id_known lower 3 modern_fingerprints (bytes "chrome_pq") (omega arith)
      (λ entry listed. listed)
