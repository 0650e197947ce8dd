-- ===== src/Common/Variables.antt =====
-- Lists of entries "key=value", as the environment of a process is one.
use mathlib.Core.Path.{◌≡◌, refl}
use mathlib.Core.Bool.{Bool, true, false, ◌&&◌, not}
use mathlib.Core.Option.{Option, none, some}
use mathlib.Core.List.{List, [], ◌∷◌, ◌++◌}
use native.Mathlib.Omega.{arith}
use android_lib_box_lite.Common.Tests.{if◌then◌else◌}
use android_lib_box_lite.Common.Bytes.{Str, bytes, str_eq, cut, cut_prefix, is_any}

-- The value that a list of entries gives to a key: that of its last entry for the key, if there is one.
abbrev pub value_after : Str → Option (Str × Str) → Option Str → Option Str
value_after key none before = before
value_after key (some (k, v)) before = if str_eq k key then some v else before

abbrev pub last_value : Str → List Str → Option Str → Option Str
last_value key [] before = before
last_value key (entry ∷ snapshot) before =
    last_value key snapshot (value_after key (cut (bytes "=") entry) before)

-- A name that an entry can set.
abbrev pub is_variable : Str → Bool
is_variable key = not (is_any b'=' key) && not (str_eq key [])

cut_at :
    (key value : Str)
    → is_any b'=' key ≡ false
    → cut (bytes "=") (key ++ (bytes "=" ++ value)) ≡ some (key, value)
unfolding cut cut_prefix is_any
cut_at [] value e = refl
cut_at (c ∷ key) value e = ground (arith, cut_at key value)

pub cut_entry :
    (key value : Str)
    → is_variable key ≡ true
    → cut (bytes "=") (key ++ (bytes "=" ++ value)) ≡ some (key, value)
cut_entry key value e = cut_at key value (ground arith)
