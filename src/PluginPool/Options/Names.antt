-- ===== src/PluginPool/Options/Names.antt =====
-- A valid envelope, and the lists of names that `validate` keeps.
use android_lib_box_lite.Common.{
  ℕ, suc, true, false, List, [], ◌∷◌, ◌++◌, Str, bytes, str_eq_iff, has, contains_any, is_any, ◌≡◌,
  ◌≢◌, ◌↔◌, ◌⊎◌, refl, arith, All, All-append, All-append_left, All-append_right, everywhere-All,
}
use android_lib_box_lite.PluginPool.Paths.{slash, is_abs}
use android_lib_box_lite.PluginPool.Paths.Join.{IsEntryName}
use android_lib_box_lite.PluginPool.Options.{
  File, Spec, Options, path_separators, valid_file_name, default_name, starts_absolute,
}

-- No two elements are equal.
abbrev pub Distinct : List Str → Type 0
Distinct [] = Unit
Distinct (x ∷ xs) = All (λ y. x ≢ y) xs × Distinct xs

abbrev pub file_names : List File → List Str
file_names [] = []
file_names (file ∷ files) = file.name ∷ file_names files

-- The names of the files of all plugins.
abbrev pub all_names : List Spec → List Str
all_names [] = []
all_names (spec ∷ specs) = file_names spec.files ++ all_names specs

abbrev pub IsFileName : Str → Type 0
IsFileName name = IsEntryName name × All (λ c. c ≢ b'\\') name

-- The plugins with the names that `validate` gives to the unnamed ones, counted from `index`.
abbrev pub named : ℕ → List Spec → List Spec
named index [] = []
named index (spec ∷ specs) = default_name index spec ∷ named (suc index) specs

abbrev pub IsAbsolute : Str → Type 0
IsAbsolute path = (rest : Str) × (path ≡ slash ∷ rest)

-- The command is not empty, and its program is an absolute path.
abbrev pub AbsoluteCommand : Spec → Type 0
AbsoluteCommand spec =
    (program : Str) × (arguments : List Str) × (spec.command ≡ program ∷ arguments)
    × IsAbsolute program

-- A valid envelope.
pub record IsValid (o : Options) : Type 0 where
  pub absolute_dir : IsAbsolute o.working_dir
  pub absolute_protect : (o.protect_path ≡ []) ⊎ IsAbsolute o.protect_path
  pub commands : All AbsoluteCommand o.plugins
  pub file_names_valid : All IsFileName (all_names o.plugins)
  pub files_distinct : Distinct (all_names o.plugins)

pub is_abs_iff : (path : Str) → (is_abs path ≡ true) ↔ IsAbsolute path
unfolding is_abs
is_abs_iff [] = (λ e. cc, λ (rest, e). cc)
is_abs_iff (c ∷ path) = (λ e. (path, ground arith), λ (rest, e). ground arith)

pub starts_absolute_iff :
    (command : List Str)
    → (starts_absolute command ≡ true) ↔ (
        (program : Str) × (arguments : List Str) × (command ≡ program ∷ arguments)
        × IsAbsolute program)
unfolding starts_absolute
starts_absolute_iff [] = (λ e. cc, λ (program, arguments, e, a). cc)
starts_absolute_iff (program ∷ arguments) = (
  λ e. (program, arguments, refl, (is_abs_iff program).0 e),
  λ (program', arguments', e, a). (is_abs_iff program).1 (a.0, ground (arith, e, a.1)),
)

pub contains_any_iff :
    (name : Str)
    → (contains_any name path_separators ≡ false)
      ↔ (All (λ c. c ≢ slash) name × All (λ c. c ≢ b'\\') name)
unfolding contains_any is_any
contains_any_iff [] = (λ _. (tt, tt), λ _. refl)
contains_any_iff (c ∷ name) =
    let (sound, complete) = contains_any_iff name in
    (
      λ e.
          let rest : contains_any name path_separators ≡ false = ground arith in
          ((ground arith, (sound rest).0), (ground arith, (sound rest).1)),
      λ h. ground (arith, complete (h.0.1, h.1.1)),
    )

pub valid_file_name_iff : (name : Str) → (valid_file_name name ≡ true) ↔ IsFileName name
unfolding valid_file_name
valid_file_name_iff name =
    let (sound, complete) = contains_any_iff name in
    (
      λ e.
          let (no_slash, no_backslash) = sound (ground arith) in
          (
            record {
              nonempty = ground (arith, str_eq_iff name []);
              not_dot = ground (arith, str_eq_iff name (bytes "."));
              not_dot_dot = ground (arith, str_eq_iff name (bytes ".."));
              no_slash = no_slash;
            },
            no_backslash,
          ),
      λ h. ground (
        arith,
        complete (h.0.no_slash, h.1),
        h.0.nonempty,
        h.0.not_dot,
        h.0.not_dot_dot,
        str_eq_iff name [],
        str_eq_iff name (bytes "."),
        str_eq_iff name (bytes ".."),
      ),
    )

-- None of the names is among those seen so far.
abbrev pub Unseen : List Str → List Str → Type 0
Unseen seen names = All (λ x. has seen x ≡ false) names

abbrev pub push : List File → List Str → List Str
push [] seen = seen
push (file ∷ files) seen = push files (file.name ∷ seen)

pub Unseen-cons_iff :
    (x : Str) (seen names : List Str)
    → Unseen (x ∷ seen) names ↔ (All (λ y. x ≢ y) names × Unseen seen names)
unfolding has
Unseen-cons_iff x seen [] = (λ _. (tt, tt), λ _. tt)
Unseen-cons_iff x seen (y ∷ names) =
    let (sound, complete) = Unseen-cons_iff x seen names in
    (
      λ h.
          let (a, b) = sound h.1 in
          ((ground (arith, str_eq_iff x y, h.0), a), (ground (arith, h.0), b)),
      λ h. (ground (arith, str_eq_iff x y, h.0.0, h.1.0), complete (h.0.1, h.1.1)),
    )

pub Distinct-append_iff :
    (xs ys : List Str) → Distinct (xs ++ ys) ↔ (Distinct xs × Distinct ys × Unseen xs ys)
unfolding has
Distinct-append_iff [] ys = (λ h. (tt, h, everywhere-All (λ y. refl) ys), λ h. h.1)
Distinct-append_iff (x ∷ xs) ys =
    let (sound, complete) = Distinct-append_iff xs ys in
    (
      λ h.
          let (a, b, c) = sound h.1 in
          (
            (All-append_left _ xs ys h.0, a),
            b,
            (Unseen-cons_iff x xs ys).1 (All-append_right _ xs ys h.0, c),
          ),
      λ h.
          let (apart, unseen) = (Unseen-cons_iff x xs ys).0 h.2 in
          (All-append _ xs ys h.0.0 apart, complete (h.0.1, h.1, unseen)),
    )

pub Unseen-push_iff :
    (files : List File) (seen names : List Str)
    → Unseen (push files seen) names ↔ (Unseen (file_names files) names × Unseen seen names)
unfolding has
Unseen-push_iff [] seen names = (λ h. (everywhere-All (λ y. refl) names, h), λ h. h.1)
Unseen-push_iff (file ∷ files) seen names =
    let (sound, complete) = Unseen-push_iff files (file.name ∷ seen) names in
    let (split, joined) = Unseen-cons_iff file.name seen names in
    let (split', joined') = Unseen-cons_iff file.name (file_names files) names in
    (
      λ h. let (a, b) = sound h in (joined' ((split b).0, a), (split b).1),
      λ h. complete ((split' h.0).1, joined ((split' h.0).0, h.1)),
    )
