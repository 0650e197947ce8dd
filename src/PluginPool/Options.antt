-- ===== src/PluginPool/Options.antt =====
-- native/pluginpool/options.go: the envelope, its validation, and file references.
pub mod Names
pub mod Validation
pub mod Expansion
mod Examples
use android_lib_box_lite.Common.{
  ℕ, zero, suc, ◌+◌, ◌/◌, ◌%◌, Bool, true, false, not, ◌||◌, Option, none, some, List, [], ◌∷◌,
  ◌++◌, Str, bytes, str_eq, has, cut, contains, contains_any, ltb, if◌then◌else◌, length, ◌≡◌, refl,
}
use android_lib_box_lite.PluginPool.Paths.{is_abs, join}

pub record File : Type 0 where
  pub name : Str
  pub content : Str

pub record Spec : Type 0 where
  pub name : Str
  pub command : List Str
  pub environment : List (Str × Str)
  pub files : List File

pub record Options : Type 0 where
  pub working_dir : Str
  pub protect_path : Str
  pub verify_peer : Bool
  pub plugins : List Spec

-- The errors of options.go. `out_of_fuel` is no Go value: the loop of `expand` never returns it.
pub data Error : Type 0 where
  not_decoded : Error
  dir_not_absolute protect_not_absolute command_not_absolute : Str → Error
  bad_file_name duplicate_file : Str → Str → Error
  unterminated_reference : Error
  unknown_file : Str → Error
  out_of_fuel : Error

pub data Result {ℓ} (A : Type ℓ) : Type ℓ where
  ok : A → Result A
  err : Error → Result A

-- A condition of `validate`, with the error of its branch.
abbrev pub require : Bool → Error → Result (Unit {0})
require false e = err e
require true _ = ok tt

-- The first error ends the call.
infixl 5 ◌>>=◌
abbrev pub ◌>>=◌ {ℓ κ} : {A : Type ℓ} {B : Type κ} → Result A → (A → Result B) → Result B
err failure >>= next = err failure
ok value >>= next = next value

infixl 5 ◌>>◌
abbrev pub ◌>>◌ {ℓ} : {B : Type ℓ} → Result (Unit {0}) → Result B → Result B
err failure >> next = err failure
ok _ >> next = next

-- Where a chain succeeds, its first call has.
pub first_ok {ℓ κ} :
    {A : Type ℓ} {B : Type κ} (first : Result A) (next : A → Result B) {b : B}
    → (first >>= next) ≡ ok b
    → (a : A) × (first ≡ ok a) × (next a ≡ ok b)
first_ok (err failure) next e = cc
first_ok (ok value) next e = (value, refl, e)

-- fmt.Sprint of an index. The quotient falls, so `suc n` rounds are enough.
decimal_loop : ℕ → ℕ → Str
decimal_loop zero n = []
decimal_loop (suc fuel) n =
    let front = decimal_loop fuel (n / 10) in
    if ltb n 10 then (n + b'0') ∷ [] else front ++ ((n % 10 + b'0') ∷ [])

pub decimal : ℕ → Str
unfolding decimal_loop
decimal n = decimal_loop (suc n) n

abbrev pub path_separators : Str
path_separators = b'/' ∷ b'\\' ∷ []

unfoldable pub valid_file_name : Str → Bool
valid_file_name name = not (
    str_eq name []
    || str_eq name (bytes ".")
    || str_eq name (bytes "..")
    || contains_any name path_separators)

abbrev pub default_name : ℕ → Spec → Spec
default_name index spec =
    if str_eq spec.name [] then record spec { name = bytes "plugin-" ++ decimal index } else spec

unfoldable pub starts_absolute : List Str → Bool
starts_absolute [] = false
starts_absolute (program ∷ arguments) = is_abs program

-- The loop over the files of one plugin; `names` are the file names seen so far.
unfoldable pub validate_files : Str → List File → List Str → Result (List Str)
validate_files plugin [] names = ok names
validate_files plugin (file ∷ files) names = do
  require (valid_file_name file.name) (bad_file_name plugin file.name)
  require (not (has names file.name)) (duplicate_file plugin file.name)
  validate_files plugin files (file.name ∷ names)

-- The loop over the plugins, which also gives the unnamed ones their names.
unfoldable pub validate_plugins : ℕ → List Spec → List Str → Result (List Spec)
validate_plugins index [] names = ok []
validate_plugins index (s ∷ specs) names = do
  let spec = default_name index s
  require (starts_absolute spec.command) (command_not_absolute spec.name)
  names' ← validate_files spec.name spec.files names
  specs' ← validate_plugins (suc index) specs names'
  ok (spec ∷ specs')

unfoldable pub validate : Options → Result Options
validate o = do
  require (is_abs o.working_dir) (dir_not_absolute o.working_dir)
  require (str_eq o.protect_path [] || is_abs o.protect_path) (protect_not_absolute o.protect_path)
  plugins ← validate_plugins 0 o.plugins []
  ok (record o { plugins = plugins })

abbrev pub token_prefix : Str
token_prefix = bytes "${file:"

abbrev pub token_suffix : Str
token_suffix = bytes "}"

-- The loop of `expand`; the builder's content is `out`.
unfoldable pub expand_loop : ℕ → Str → Str → List Str → Str → Result Str
expand_loop zero value dir files out = err out_of_fuel
expand_loop (suc fuel) value dir files out = elim (cut token_prefix value) [
  | none ↦ ok (out ++ value)
  | some (before, rest) ↦ elim (cut token_suffix rest) [
    | none ↦ err unterminated_reference
    | some (name, after) ↦ elim (has files name) [
      | false ↦ err (unknown_file name)
      | true ↦ expand_loop fuel after dir files ((out ++ before) ++ join dir name)
    ]
  ]
]

-- Each round takes a token off `value`, so `suc (length value)` rounds are enough.
unfoldable pub expand : Str → Str → List Str → Result Str
expand value dir files =
    if contains token_prefix value
    then expand_loop (suc (length value)) value dir files []
    else ok value
