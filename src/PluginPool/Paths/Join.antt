-- ===== src/PluginPool/Paths/Join.antt =====
-- `join` of an absolute directory and the name of a file in it.
use android_lib_box_lite.Common.{
  true, List, [], ◌∷◌, ◌++◌, Str, ◌==◌, bytes, ◌≡◌, ◌≢◌, refl, sym, ap, ◌∙◌, arith, All, str_eq_iff,
  Bool-cases, inl, inr, append_assoc, append-nil,
}
use android_lib_box_lite.PluginPool.Paths.{
  slash, is_abs, split_path, dot_dot, clean_part, behind_slashes, render, clean, join,
}
use mathlib.Core.List.{foldl, foldl-append, reverse, reverse-cons, append_cancel_left}

-- A name of an entry of a directory: some bytes, no slash, and neither "." nor "..".
pub record IsEntryName (name : Str) : Type 0 where
  pub nonempty : name ≢ []
  pub not_dot : name ≢ bytes "."
  pub not_dot_dot : name ≢ dot_dot
  pub no_slash : All (λ c. c ≢ slash) name

split_path-cons :
    (path : Str) → (part : Str) × (parts : List Str) × (split_path path ≡ part ∷ parts)
unfolding split_path
split_path-cons [] = ([], [], refl)
split_path-cons (c ∷ path) =
    let (part, parts, e) = split_path-cons path in
    elim (Bool-cases (c == slash)) [
      | inl h ↦ ([], split_path path, rw h)
      | inr h ↦ (c ∷ part, parts, rw (h, e))
    ]

split_path-append :
    (dir name : Str) → split_path (dir ++ (slash ∷ name)) ≡ split_path dir ++ split_path name
unfolding split_path
split_path-append [] name = refl
split_path-append (c ∷ dir) name =
    let (part, parts, e) = split_path-cons dir in
    elim (Bool-cases (c == slash)) [
      | inl h ↦ rw h (ap (λ (t : List Str). [] ∷ t) (split_path-append dir name))
      | inr h ↦ rw h (rw (split_path-append dir name) (rw e))
    ]

split_path_name : (name : Str) → All (λ c. c ≢ slash) name → split_path name ≡ name ∷ []
unfolding split_path
split_path_name [] h = refl
split_path_name (c ∷ name) h = ground (arith, split_path_name name h.1)

behind_slashes-append :
    (parts rest : List Str)
    → behind_slashes (parts ++ rest) ≡ behind_slashes parts ++ behind_slashes rest
unfolding behind_slashes
behind_slashes-append [] rest = refl
behind_slashes-append (part ∷ parts) rest =
    ap (λ (t : Str). slash ∷ t)
      (ap (λ (t : Str). part ++ t) (behind_slashes-append parts rest)
        ∙ sym (append_assoc part (behind_slashes parts) (behind_slashes rest)))

-- What `join` puts before "/name": the cleaned directory, or nothing for the root.
pub directory : Str → Str
directory dir = behind_slashes (reverse (foldl (clean_part true) [] (split_path dir)))

behind_one : (name : Str) → behind_slashes (name ∷ []) ≡ slash ∷ name
unfolding behind_slashes
behind_one name = ap (λ (t : Str). slash ∷ t) (append-nil name)

render_last :
    (parts : List Str) (name : Str)
    → render true (parts ++ (name ∷ [])) ≡ behind_slashes parts ++ (slash ∷ name)
unfolding behind_slashes
render_last [] name = behind_one name
render_last (part ∷ parts) name =
    behind_slashes-append (part ∷ parts) (name ∷ [])
    ∙ ap (λ (t : Str). behind_slashes (part ∷ parts) ++ t) (behind_one name)

clean_part_name :
    (stack : List Str) (name : Str) → IsEntryName name → clean_part true stack name ≡ name ∷ stack
unfolding clean_part
clean_part_name stack name v =
    ground (arith, str_eq_iff name [], str_eq_iff name (bytes "."), str_eq_iff name dot_dot)

-- Joined to an absolute directory, the name of an entry stays whole and last.
pub join-directory :
    (dir name : Str)
    → is_abs dir ≡ true
    → IsEntryName name
    → join dir name ≡ directory dir ++ (slash ∷ name)
unfolding join clean directory
join-directory [] name h v = unfold is_abs in cc
join-directory (d ∷ dir) name h v =
    let stack = foldl (clean_part true) [] (split_path (d ∷ dir)) in
    let absolute : is_abs ((d ∷ dir) ++ (slash ∷ name)) ≡ true = unfold is_abs in h in
    rw absolute (
      ap (λ (parts : List Str). render true (reverse (foldl (clean_part true) [] parts)))
        (split_path-append (d ∷ dir) name
          ∙ ap (λ (t : List Str). split_path (d ∷ dir) ++ t) (split_path_name name v.no_slash))
      ∙ ap (λ (t : List Str). render true (reverse t))
          (foldl-append (clean_part true) [] (split_path (d ∷ dir)) (name ∷ [])
            ∙ clean_part_name stack name v)
      ∙ ap (render true) (reverse-cons name stack)
      ∙ render_last (reverse stack) name)

-- Different entries of one directory have different paths.
pub join_injective :
    (dir a b : Str)
    → is_abs dir ≡ true
    → IsEntryName a
    → IsEntryName b
    → join dir a ≡ join dir b
    → a ≡ b
join_injective dir a b h va vb e = cc (
    append_cancel_left (directory dir) (slash ∷ a) (slash ∷ b)
      (sym (join-directory dir a h va) ∙ e ∙ join-directory dir b h vb))
