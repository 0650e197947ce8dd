-- ===== src/Environment/Examples.antt =====
-- Limits as text, and the environments of a start that panics.
use android_lib_box_lite.Common.{
  none, some, [], ◌∷◌, ◌++◌, ◌*◌, Str, bytes, leb, if◌then◌else◌, ◌≡◌, refl,
}
use android_lib_box_lite.Common.Strconv.{parse_digits}
use android_lib_box_lite.Common.{cut, cut_prefix, contains_any, is_any, List, str_eq}
use android_lib_box_lite.Common.Strconv.{negsuc, parse_int}
use android_lib_box_lite.Environment.{
  RuntimeCalls, init, restore, set_env, put_env, unset_env, gc_percent_of, max_procs_of, cli_marker,
}
use android_lib_box_lite.Common.Variables.{last_value}
use android_lib_box_lite.Environment.Restored.{init-last_value}
use android_lib_box_lite.Environment.{
  max_int64, parse_memory_limit, Env, lookup_env, apply_runtime_limits,
}
use android_lib_box_lite.Environment.Limits.{gib, suffix, size, parse_memory_limit_exact}

parse_memory_limit_exact_example :
    parse_memory_limit (bytes "8589934592" ++ suffix gib)
    ≡ (if leb (8589934592 * size gib) max_int64 then some (8589934592 * size gib) else none)
unfolding parse_digits
parse_memory_limit_exact_example = parse_memory_limit_exact (bytes "8589934592") 8589934592 gib refl

abbrev environment : Env
environment = (bytes "GOGC", bytes "50") ∷ ((bytes "GOMEMLIMIT", bytes "lots") ∷ [])

-- The marker, a variable that is bound twice, and an entry without '='.
abbrev snapshot : List Str
snapshot =
    bytes "ANDROID_BOX_CLI=1" ∷ (bytes "GOGC=50" ∷ (bytes "broken" ∷ (bytes "GOGC=off" ∷ [])))

abbrev started : Env
started = (bytes "GOGC", bytes "off") ∷ []

abbrev collector_off : RuntimeCalls
collector_off = record { gc_percent = some (negsuc 0); memory_limit = none; max_procs = none }

init-last_value_example : lookup_env (bytes "GOGC") started ≡ (
    if str_eq (bytes "GOGC") cli_marker
    then none
    else last_value (bytes "GOGC") snapshot (lookup_env (bytes "GOGC") []))
unfolding init apply_runtime_limits restore set_env put_env unset_env str_eq lookup_env cut
    contains_any is_any gc_percent_of max_procs_of cut_prefix parse_int
init-last_value_example =
    init-last_value snapshot [] started (some collector_off) (bytes "GOGC") refl
