-- ===== src/PluginPool/Paths.antt =====
-- What native/pluginpool uses of package path/filepath on Unix: IsAbs, Clean, Join and Dir.
pub mod Join
use android_lib_box_lite.Common.{
  ℕ, Bool, true, false, List, [], ◌∷◌, ◌++◌, Str, str_eq, ◌==◌, ◌||◌, if◌then◌else◌, bytes,
}
use mathlib.Core.List.{foldl, reverse}

abbrev pub slash : ℕ
slash = 0x2f

unfoldable pub is_abs : Str → Bool
is_abs [] = false
is_abs (c ∷ path) = c == slash

abbrev pub push_byte : ℕ → List Str → List Str
push_byte c [] = (c ∷ []) ∷ []
push_byte c (part ∷ parts) = (c ∷ part) ∷ parts

-- The parts between slashes; there is always one.
unfoldable pub split_path : Str → List Str
split_path [] = [] ∷ []
split_path (c ∷ path) =
    let parts = split_path path in if c == slash then [] ∷ parts else push_byte c parts

abbrev pub dot_dot : Str
dot_dot = bytes ".."

-- A `..` takes a part back; at the root it is dropped, in a relative path it may stay.
abbrev go_up : Bool → List Str → List Str
go_up true [] = []
go_up false [] = dot_dot ∷ []
go_up true (part ∷ stack) = stack
go_up false (part ∷ stack) = if str_eq part dot_dot then dot_dot ∷ (part ∷ stack) else stack

unfoldable pub clean_part : Bool → List Str → Str → List Str
clean_part rooted stack part =
    if str_eq part [] || str_eq part (bytes ".")
    then stack
    else if str_eq part dot_dot
    then go_up rooted stack
    else part ∷ stack

unfoldable pub behind_slashes : List Str → Str
behind_slashes [] = []
behind_slashes (part ∷ parts) = (slash ∷ part) ++ behind_slashes parts

abbrev render : Bool → List Str → Str
render true [] = slash ∷ []
render true (part ∷ parts) = behind_slashes (part ∷ parts)
render false [] = bytes "."
render false (part ∷ parts) = part ++ behind_slashes parts

-- filepath.Clean
unfoldable pub clean : Str → Str
unfolding clean_part behind_slashes
clean path = render (is_abs path) (reverse (foldl (clean_part (is_abs path)) [] (split_path path)))

-- filepath.Join of two elements: those before the first non-empty one are left out.
unfoldable pub join : Str → Str → Str
join [] [] = []
join [] (c ∷ name) = clean (c ∷ name)
join (d ∷ dir) name = clean ((d ∷ dir) ++ (slash ∷ name))

-- The bytes up to the last slash, with it.
pub up_to_slash : Str → Str
up_to_slash [] = []
up_to_slash (c ∷ path) =
    let rest = up_to_slash path in
    if c == slash then c ∷ rest else elim rest [ [] ↦ [] | d ∷ more ↦ c ∷ (d ∷ more) ]

-- filepath.Dir
pub dir_of : Str → Str
unfolding up_to_slash
dir_of path = clean (up_to_slash path)
