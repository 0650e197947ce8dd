-- ===== src/PluginPool/Options/Validation.antt =====
-- `validate` against an independent description of a valid envelope.
use android_lib_box_lite.Common.{
  ℕ, suc, true, false, ◌||◌, List, [], ◌∷◌, Str, str_eq, str_eq_iff, has, ◌≡◌, ◌≢◌, ◌↔◌, ◌⊎◌, refl,
  sym, ap, subst, arith, All, All-append, All-append_left, All-append_right, everywhere-All, map,
}
use android_lib_box_lite.PluginPool.Paths.{is_abs, join}
use android_lib_box_lite.PluginPool.Paths.Join.{join_injective}
use android_lib_box_lite.PluginPool.Options.{
  File, Spec, Options, ok, first_ok, valid_file_name, default_name, starts_absolute, validate_files,
  validate_plugins, validate,
}
use android_lib_box_lite.PluginPool.Options.Names.{
  Distinct, file_names, all_names, IsFileName, named, IsAbsolute, is_abs_iff, starts_absolute_iff,
  AbsoluteCommand, IsValid, Unseen, push, valid_file_name_iff, Unseen-cons_iff, Distinct-append_iff,
  Unseen-push_iff,
}

-- What the loop over the files of one plugin accepts.
FilesAccepted : List Str → List File → Type 0
FilesAccepted seen files =
    All IsFileName (file_names files) × Unseen seen (file_names files) × Distinct (file_names files)

validate_files_sound :
    (plugin : Str) (files : List File) (seen : List Str) {seen' : List Str}
    → validate_files plugin files seen ≡ ok seen'
    → (seen' ≡ push files seen) × FilesAccepted seen files
unfolding validate_files FilesAccepted
validate_files_sound plugin [] seen e = (cc, (tt, tt, tt))
validate_files_sound plugin (file ∷ files) seen {seen'} e =
    let valid : valid_file_name file.name ≡ true = ground arith in
    let new : has seen file.name ≡ false = ground arith in
    let rest : validate_files plugin files (file.name ∷ seen) ≡ ok seen' = rw (valid, new) at e in
    let (same, (names_valid, unseen, distinct)) =
      validate_files_sound plugin files (file.name ∷ seen) rest in
    let (apart, unseen') = (Unseen-cons_iff file.name seen (file_names files)).0 unseen in
    (
      same,
      (((valid_file_name_iff file.name).0 valid, names_valid), (new, unseen'), (apart, distinct)),
    )

validate_files_complete :
    (plugin : Str) (files : List File) (seen : List Str)
    → FilesAccepted seen files
    → validate_files plugin files seen ≡ ok (push files seen)
unfolding validate_files FilesAccepted
validate_files_complete plugin [] seen h = refl
validate_files_complete plugin (file ∷ files) seen (valid, unseen, distinct) =
    rw ((valid_file_name_iff file.name).1 valid.0, unseen.0)
      (validate_files_complete plugin files (file.name ∷ seen) (
        valid.1,
        (Unseen-cons_iff file.name seen (file_names files)).1 (distinct.0, unseen.1),
        distinct.1,
      ))

default_name-files : (index : ℕ) (spec : Spec) → (default_name index spec).files ≡ spec.files
default_name-files index spec = ground arith

-- What the loop over the plugins accepts.
PluginsAccepted : ℕ → List Str → List Spec → Type 0
PluginsAccepted index seen specs =
    All AbsoluteCommand (named index specs)
    × All IsFileName (all_names (named index specs))
    × Unseen seen (all_names (named index specs))
    × Distinct (all_names (named index specs))

validate_plugins_sound :
    (index : ℕ) (specs : List Spec) (seen : List Str) {specs' : List Spec}
    → validate_plugins index specs seen ≡ ok specs'
    → (specs' ≡ named index specs) × PluginsAccepted index seen specs
unfolding validate_plugins PluginsAccepted FilesAccepted
validate_plugins_sound index [] seen e = (cc, (tt, tt, tt, tt))
validate_plugins_sound index (s ∷ specs) seen {specs'} e =
    let spec = default_name index s in
    let absolute : starts_absolute spec.command ≡ true = ground arith in
    let (seen', files_ok, more) =
      first_ok (validate_files spec.name spec.files seen) _ (rw absolute at e) in
    let (rest, rest_ok, last) = first_ok (validate_plugins (suc index) specs seen') _ more in
    let F = file_names spec.files in
    let R = all_names (named (suc index) specs) in
    let (same, (files_valid, unseen, distinct)) =
      validate_files_sound spec.name spec.files seen files_ok in
    let (same', (commands, valid', unseen', distinct')) =
      validate_plugins_sound (suc index) specs seen' rest_ok in
    let (apart, unseen'') =
      (Unseen-push_iff spec.files seen R).0 (subst (λ (l : List Str). Unseen l R) same unseen') in
    (
      cc,
      (
        ((starts_absolute_iff spec.command).0 absolute, commands),
        All-append _ F R files_valid valid',
        All-append _ F R unseen unseen'',
        (Distinct-append_iff F R).1 (distinct, distinct', apart),
      ),
    )

validate_plugins_complete :
    (index : ℕ) (specs : List Spec) (seen : List Str)
    → PluginsAccepted index seen specs
    → validate_plugins index specs seen ≡ ok (named index specs)
unfolding validate_plugins PluginsAccepted FilesAccepted
validate_plugins_complete index [] seen h = refl
validate_plugins_complete index (s ∷ specs) seen (commands, valid, unseen, distinct) =
    let spec = default_name index s in
    let F = file_names spec.files in
    let R = all_names (named (suc index) specs) in
    let (d, d', apart) = (Distinct-append_iff F R).0 distinct in
    rw ((starts_absolute_iff spec.command).1 commands.0) (
      rw
        (validate_files_complete spec.name spec.files seen
          (All-append_left _ F R valid, All-append_left _ F R unseen, d))
        (rw (
          validate_plugins_complete (suc index) specs (push spec.files seen) (
            commands.1,
            All-append_right _ F R valid,
            (Unseen-push_iff spec.files seen R).1 (apart, All-append_right _ F R unseen),
            d',
          ))))

protect_path_iff :
    (path : Str) → ((str_eq path [] || is_abs path) ≡ true) ↔ ((path ≡ []) ⊎ IsAbsolute path)
protect_path_iff path = ground (arith, str_eq_iff path [], is_abs_iff path)

validate_sound :
    (o o' : Options)
    → validate o ≡ ok o'
    → (o' ≡ record o { plugins = named 0 o.plugins }) × IsValid o'
unfolding validate PluginsAccepted
validate_sound o o' e =
    let absolute : is_abs o.working_dir ≡ true = ground arith in
    let protect : (str_eq o.protect_path [] || is_abs o.protect_path) ≡ true = ground arith in
    let (plugins, checked, last) =
      first_ok (validate_plugins 0 o.plugins []) _ (rw (absolute, protect) at e) in
    let (same, (commands, valid, unseen, distinct)) =
      validate_plugins_sound 0 o.plugins [] checked in
    let same' : o' ≡ record o { plugins = named 0 o.plugins } = cc in
    (
      same',
      rw same' (record {
        absolute_dir = (is_abs_iff o.working_dir).0 absolute;
        absolute_protect = (protect_path_iff o.protect_path).0 protect;
        commands = commands;
        file_names_valid = valid;
        files_distinct = distinct;
      }),
    )

validate_complete :
    (o o' : Options)
    → o' ≡ record o { plugins = named 0 o.plugins }
    → IsValid o'
    → validate o ≡ ok o'
unfolding validate PluginsAccepted has
validate_complete o o' same v =
    let w : IsValid (record o { plugins = named 0 o.plugins }) = rw same at v in
    rw
      (
        (is_abs_iff o.working_dir).1 w.absolute_dir,
        (protect_path_iff o.protect_path).1 w.absolute_protect,
      )
      (rw
        (validate_plugins_complete 0 o.plugins []
          (w.commands, w.file_names_valid, everywhere-All (λ x. refl) _, w.files_distinct))
        (ap ok (sym same)))

-- `validate` accepts an envelope exactly when, with the unnamed plugins named by their position, the
-- working directory is absolute, the protect path is empty or absolute, every command starts with an
-- absolute path, and the files of all plugins have proper and distinct names; its result is that.
pub validate_iff :
    (o o' : Options)
    → (validate o ≡ ok o') ↔ ((o' ≡ record o { plugins = named 0 o.plugins }) × IsValid o')
validate_iff o o' = (validate_sound o o', λ (same, v). validate_complete o o' same v)

pub join-Distinct :
    (dir : Str) (names : List Str)
    → is_abs dir ≡ true
    → All IsFileName names
    → Distinct names
    → Distinct (map (join dir) names)
join-Distinct dir [] h v d = tt
join-Distinct dir (x ∷ names) h v d = (apart names v.1 d.0, join-Distinct dir names h v.1 d.1)
  where
    apart :
        (ys : List Str)
        → All IsFileName ys
        → All (λ y. x ≢ y) ys
        → All (λ p. join dir x ≢ p) (map (join dir) ys)
    apart [] _ _ = tt
    apart (y ∷ ys) w a = ((λ e. a.0 (join_injective dir x y h v.0.0 w.0.0 e)), apart ys w.1 a.1)

-- In an accepted envelope the files of all plugins are written to distinct paths, so that the cleanup
-- of one plugin deletes no file of another.
pub validate-paths-Distinct :
    (o o' : Options)
    → validate o ≡ ok o'
    → Distinct (map (join o'.working_dir) (all_names o'.plugins))
validate-paths-Distinct o o' e =
    let v = ((validate_iff o o').0 e).1 in
    join-Distinct o'.working_dir (all_names o'.plugins)
      ((is_abs_iff o'.working_dir).1 v.absolute_dir) v.file_names_valid v.files_distinct
