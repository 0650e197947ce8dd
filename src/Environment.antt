-- ===== src/Environment.antt =====
-- Package environment (environment/environment.go, environment/runtime.go): the environment of the
-- standalone process, and the limits of the Go runtime that are set again from it.
pub mod Limits
pub mod Restored
mod Examples
use android_lib_box_lite.Common.{
  ℕ, zero, suc, ◌-◌, ◌*◌, ◌/◌, ◌%◌, ◌^◌, Bool, Option, none, some, List, [], ◌∷◌, ltb,
  if◌then◌else◌, Str, bytes, str_eq, cut_suffix, cut, contains_any, ◌>>=◌, ◌||◌,
}
use android_lib_box_lite.Common.Strconv.{ℤ, pos, negsuc, parse_int}
use mathlib.Core.Option

abbrev pub max_int64 : ℕ
max_int64 = 2 ^ 63 - 1

-- The suffixes in the order of the loop of `parseMemoryLimit`, each with its number of bytes.
abbrev pub units : List (Str × ℕ)
units =
    (bytes "KiB", 2 ^ 10)
    ∷ (bytes "MiB", 2 ^ 20)
    ∷ (bytes "GiB", 2 ^ 30)
    ∷ (bytes "TiB", 2 ^ 40)
    ∷ (bytes "B", 1)
    ∷ []

-- The loop over the units: the first suffix that fits is cut off, and gives the multiplier.
pub cut_unit : List (Str × ℕ) → Str → Str × ℕ
cut_unit [] value = (value, 1)
cut_unit ((suffix, size) ∷ rest) value =
    let later = cut_unit rest value in
    elim (cut_suffix value suffix) [ none ↦ later | some value' ↦ (value', size) ]

-- The product is that of int64, so it is taken modulo 2 ^ 64.
pub scale : Option ℤ → ℕ → Option ℕ
scale none multiplier = none
scale (some (negsuc n)) multiplier = none
scale (some (pos n)) multiplier =
    if ltb (max_int64 / multiplier) n then none else some (n * multiplier % 2 ^ 64)

-- `(0, false)` is `none`.
pub parse_memory_limit : Str → Option ℕ
unfolding cut_unit scale
parse_memory_limit value =
    let (rest, multiplier) = cut_unit units value in scale (parse_int rest 64) multiplier

-- The process environment; a key is bound once.
abbrev pub Env : Type 0
Env = List (Str × Str)

pub lookup_env : Str → Env → Option Str
lookup_env key [] = none
lookup_env key ((k, v) ∷ env) = if str_eq k key then some v else lookup_env key env

pub put_env : Str → Str → Env → Env
put_env key value [] = (key, value) ∷ []
put_env key value ((k, v) ∷ env) =
    if str_eq k key then (k, value) ∷ env else (k, v) ∷ put_env key value env

pub unset_env : Str → Env → Env
unset_env key [] = []
unset_env key ((k, v) ∷ env) =
    let rest = unset_env key env in if str_eq k key then rest else (k, v) ∷ rest

abbrev pub is_nul_or_equals : Str
is_nul_or_equals = b'=' ∷ 0 ∷ []

-- os.Setenv refuses an empty key, a key with '=' or NUL and a value with NUL.
pub set_env : Str → Str → Env → Option Env
set_env [] value env = none
set_env (c ∷ key) value env =
    if contains_any (c ∷ key) is_nul_or_equals || contains_any value (0 ∷ [])
    then none
    else some (put_env (c ∷ key) value env)

pub data Panic : Type 0 where
  bad_environment bad_memory_limit : Panic

pub data Result {ℓ} (A : Type ℓ) : Type ℓ where
  ok : A → Result A
  panic : Panic → Result A

-- The calls to package runtime and runtime/debug; `none` is no call.
pub record RuntimeCalls : Type 0 where
  pub gc_percent : Option ℤ
  pub memory_limit : Option ℕ
  pub max_procs : Option ℕ

pub gc_percent_of : Str → ℤ
gc_percent_of value =
    if str_eq value (bytes "off") then negsuc 0 else Option.get_or (parse_int value 32) (pos 100)

pub memory_limit_of : Str → Option ℕ
memory_limit_of value =
    if str_eq value [] || str_eq value (bytes "off")
    then some max_int64
    else parse_memory_limit value

abbrev positive : ℤ → Option ℕ
positive (pos zero) = none
positive (pos (suc n)) = some (suc n)
positive (negsuc n) = none

pub max_procs_of : Str → Option ℕ
max_procs_of value = parse_int value 32 >>= positive

-- What `applyRuntimeLimits` does with the three variables.
abbrev with_memory_limit : Option Str → (Option ℕ → RuntimeCalls) → Result RuntimeCalls
with_memory_limit none rest = ok (rest none)
with_memory_limit (some value) rest = elim (memory_limit_of value) [
  | none ↦ panic bad_memory_limit
  | some n ↦ ok (rest (some n))
]

pub apply_runtime_limits : Env → Result RuntimeCalls
unfolding gc_percent_of memory_limit_of max_procs_of
apply_runtime_limits env = with_memory_limit (lookup_env (bytes "GOMEMLIMIT") env) λ limit. record {
  gc_percent = Option.map gc_percent_of (lookup_env (bytes "GOGC") env);
  memory_limit = limit;
  max_procs = max_procs_of (Option.get_or (lookup_env (bytes "GOMAXPROCS") env) []);
}

-- The loop over the snapshot: an entry without '=' is passed over.
abbrev restore_entry : Option (Str × Str) → Env → Option Env
restore_entry none env = some env
restore_entry (some (key, value)) env = set_env key value env

pub restore : List Str → Env → Option Env
restore [] env = some env
restore (entry ∷ snapshot) env = restore_entry (cut (bytes "=") entry) env >>= restore snapshot

abbrev pub cli_marker : Str
cli_marker = bytes "ANDROID_BOX_CLI"

abbrev start_cli : Option Env → Result (Env × Option RuntimeCalls)
start_cli none = panic bad_environment
start_cli (some env) = elim (apply_runtime_limits (unset_env cli_marker env)) [
  | ok calls ↦ ok (unset_env cli_marker env, some calls)
  | panic p ↦ panic p
]

-- `init` of a process whose C environment is `snapshot`: JNI keeps what it has.
pub init : Bool → List Str → Env → Result (Env × Option RuntimeCalls)
init is_cli snapshot env = if is_cli then start_cli (restore snapshot env) else ok (env, none)
