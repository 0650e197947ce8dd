-- ===== src/PluginPool/Host/Written.antt =====
-- What the first loop of `prepare` leaves in the directory of the plugins.
use android_lib_box_lite.Common.{
  true, Option, none, some, List, [], ◌∷◌, Str, str_eq, str_eq_iff, str_eq_refl, ◌≡◌, ◌≢◌, refl,
  sym, ◌∙◌, arith, All, if-split, if◌then◌else◌,
}
use android_lib_box_lite.PluginPool.Options.{File}
use android_lib_box_lite.PluginPool.Options.Names.{Distinct, push}
use android_lib_box_lite.PluginPool.Paths.{join}
use android_lib_box_lite.PluginPool.World.{World, Os, put_file, Written, whole, not_created, partly}
use android_lib_box_lite.PluginPool.Guards.{Files, wrote, is_whole, write_files}

-- The value of a key in a list of pairs.
abbrev pub find_value : Str → List (Str × Str) → Option Str
find_value key [] = none
find_value key ((k, v) ∷ pairs) = if str_eq k key then some v else find_value key pairs

find_value-put_file :
    (p path content : Str) (files : List (Str × Str))
    → find_value p (put_file path content files)
      ≡ (if str_eq path p then some content else find_value p files)
unfolding put_file
find_value-put_file p path content [] = refl
find_value-put_file p path content ((q, c) ∷ files) = ground (
  arith,
  find_value-put_file p path content files,
  str_eq_iff q path,
  str_eq_iff q p,
  str_eq_iff path p,
)

abbrev pub paths_in : Str → List File → List Str
paths_in dir [] = []
paths_in dir (file ∷ files) = join dir file.name ∷ paths_in dir files

module _ (p path content : Str) (w : World) where
  put_elsewhere :
      (c : Str) → p ≢ path → find_value p (put_file path c w.files) ≡ find_value p w.files
  put_elsewhere c ne =
      find_value-put_file p path c w.files
      ∙ if-split (λ (o : Option Str). o ≡ find_value p w.files) (str_eq path p)
          (λ e. absurd (ne (sym ((str_eq_iff path p).0 e)))) (λ _. refl)

  wrote_elsewhere :
      (o : Written) → p ≢ path → find_value p (wrote path content w o).files ≡ find_value p w.files
  wrote_elsewhere whole ne = put_elsewhere content ne
  wrote_elsewhere not_created ne = refl
  wrote_elsewhere (partly c) ne = put_elsewhere c ne

wrote_whole :
    (path content : Str) (w : World) (o : Written)
    → is_whole o ≡ true
    → find_value path (wrote path content w o).files ≡ some content
wrote_whole path content w whole e =
    find_value-put_file path path content w.files ∙ rw (str_eq_refl path) refl
wrote_whole path content w not_created e = cc
wrote_whole path content w (partly c) e = cc

-- A write of a plugin's files touches no other path.
write_files_elsewhere :
    (os : Os) (dir p : Str) (files : List File) (w : World) (fs : Files)
    → All (λ q. p ≢ q) (paths_in dir files)
    → find_value p (write_files os dir files w fs).0.files ≡ find_value p w.files
unfolding write_files
write_files_elsewhere os dir p [] w fs a = refl
write_files_elsewhere os dir p (file ∷ files) w fs (ne, a) =
    let path = join dir file.name in
    let o = os.write_file w path in
    let here = wrote_elsewhere p path file.content w o ne in
    if-split (λ (r : World × Files). find_value p r.0.files ≡ find_value p w.files) (is_whole o)
      (λ _.
        write_files_elsewhere os dir p files (wrote path file.content w o)
          (record fs { paths = path ∷ fs.paths; names = file.name ∷ fs.names }) a
        ∙ here)
      (λ _. here)

-- Every file is there, whole.
abbrev pub Holds : Str → List (Str × Str) → File → Type 0
Holds dir written file = find_value (join dir file.name) written ≡ some file.content

pub write_files-Holds :
    (os : Os) (dir : Str) (files : List File) (w : World) (fs : Files)
    → Distinct (paths_in dir files)
    → (write_files os dir files w fs).1.failed ≡ none
    → ((write_files os dir files w fs).1.names ≡ push files fs.names)
      × All (Holds dir (write_files os dir files w fs).0.files) files
unfolding write_files
write_files-Holds os dir [] w fs d e = (refl, tt)
write_files-Holds os dir (file ∷ files) w fs (apart, d) e =
    let path = join dir file.name in
    let o = os.write_file w path in
    let w' = wrote path file.content w o in
    let fs' = record fs { paths = path ∷ fs.paths; names = file.name ∷ fs.names } in
    if-split
      (λ (r : World × Files).
        r.1.failed ≡ none
        → (r.1.names ≡ push (file ∷ files) fs.names) × All (Holds dir r.0.files) (file ∷ files))
      (is_whole o)
      (λ complete done.
        let (names, rest) = write_files-Holds os dir files w' fs' d done in
        (
          names,
          (
            write_files_elsewhere os dir path files w' fs' apart
                ∙ wrote_whole path file.content w o complete,
            rest,
          ),
        ))
      (λ _ failed. cc) e
