-- ===== src/SystemDns/Helper/Matching.antt =====
-- What `helperMatches` finds in the home directory.
use android_lib_box_lite.Common.{
  ℕ, zero, suc, ◌≤◌, Bool, true, false, not, ◌||◌, Option, none, some, [], ◌∷◌, Str, str_eq,
  str_eq_iff, str_eq_refl, ◌==◌, ==_iff, if-split, length, take, ◌≡◌, ◌⊎◌, inl, inr, refl, sym, ap,
  ◌∙◌, arith, Bool-cases,
}
use android_lib_box_lite.SystemDns.Helper.{
  no_absolute_path, not_created, not_opened, no_status, not_regular, not_read, not_chmod,
  no_temporary, not_written, not_synced, not_closed, not_renamed, helper_filename, read_only, File,
  Node, regular, symbolic_link, other_kind, Files, put, Error, Os, checked_mode, checked_content,
  helper_matches_at, helper_matches,
}

-- The helper file is there with the payload, as a file of the user.
abbrev pub HasPayload : Os → Str → Files → File → Type 0
HasPayload os payload files f =
    (files helper_filename ≡ some (regular f)) × (f.content ≡ payload) × (f.owner ≡ os.user)

-- Why ensureHelper fails.
abbrev pub IsCause : Os → Files → Error → Type 0
IsCause os files no_absolute_path = os.absolute ≡ none
IsCause os files not_created = os.mkdir_fails ≡ true
IsCause os files not_opened = os.open_fails ≡ true
IsCause os files no_status = os.stat_fails ≡ true
IsCause os files not_regular = files helper_filename ≡ some other_kind
IsCause os files not_read = os.read_fails ≡ true
IsCause os files not_chmod = (os.chmod_fails ≡ true) ⊎ (os.temp_chmod_fails ≡ true)
IsCause os files no_temporary = (swept : Files) × (os.create_temp swept ≡ none)
IsCause os files not_written = (part : Str) × (os.write_fails ≡ some part)
IsCause os files not_synced = os.sync_fails ≡ true
IsCause os files not_closed = os.close_fails ≡ true
IsCause os files not_renamed = os.rename_fails ≡ true

pub put_same :
    (name : Str) (entry : Option Node) (files : Files) → put name entry files name ≡ entry
put_same name entry files = rw (str_eq_refl name) refl

pub put_elsewhere :
    (name : Str) (entry : Option Node) (files : Files) (n : Str)
    → (put name entry files n ≡ files n) ⊎ (n ≡ name)
put_elsewhere name entry files n = elim (Bool-cases (str_eq name n)) [
  | inl same ↦ inr (sym ((str_eq_iff name n).0 same))
  | inr other ↦ inl (rw other refl)
]

take_whole : (n : ℕ) (s : Str) → length s ≤ n → take n s ≡ s
take_whole zero [] h = refl
take_whole zero (c ∷ s) h = absurd (omega (arith, h))
take_whole (suc n) [] h = refl
take_whole (suc n) (c ∷ s) h = ap (λ (t : Str). c ∷ t) (take_whole n s (omega (arith, h)))

module _ (os : Os) where
  -- What `helperMatches` finds.
  pub data Matched (payload : Str) (files : Files) : Files × (Bool × Option Error) → Type 0 where
    matches :
        (files' : Files) (f : File)
        → HasPayload os payload files f
        → files' helper_filename ≡ some (regular (record f { mode = read_only }))
        → ((name : Str) → (files' name ≡ files name) ⊎ (name ≡ helper_filename))
        → Matched payload files (files', (true, none))
    differs :
        ((f : File) → HasPayload os payload files f → ⊥)
        → Matched payload files (files, (false, none))
    refuses : (e : Error) → IsCause os files e → Matched payload files (files, (false, some e))

  module _ (payload : Str) (files : Files) where
    checked_mode-Matched :
        (f : File) → HasPayload os payload files f → Matched payload files (checked_mode os f files)
    checked_mode-Matched f h =
        if-split (Matched payload files) (f.mode == read_only)
          (λ same.
            matches files f h (ground (arith, h.0, (==_iff f.mode read_only).0 same))
              (λ name. inl refl))
          (λ _.
            if-split (Matched payload files) os.chmod_fails (λ down. refuses not_chmod (inl down))
              (λ _.
                matches _ f h (put_same helper_filename _ files)
                  (put_elsewhere helper_filename _ files)))

    whole : (f : File) → f.content ≡ payload → take (suc (length payload)) f.content ≡ payload
    whole f full = rw full (take_whole (suc (length payload)) payload (omega arith))

    owned :
        (f : File)
        → (not (f.owner == os.user) || not (length f.content == length payload)) ≡ false
        → f.owner ≡ os.user
    owned f same = ground (arith, (==_iff f.owner os.user).0)

    whole_content :
        (f : File)
        → (not (f.owner == os.user) || not (length f.content == length payload)) ≡ false
        → not (str_eq (take (suc (length payload)) f.content) payload) ≡ false
        → f.content ≡ payload
    whole_content f same equal =
        let size : length f.content ≡ length payload =
          ground (arith, (==_iff (length f.content) (length payload)).0) in
        sym (take_whole (suc (length payload)) f.content (omega (arith, size)))
        ∙ (str_eq_iff (take (suc (length payload)) f.content) payload).0 (ground arith)

    checked_content-Matched :
        (f : File)
        → files helper_filename ≡ some (regular f)
        → Matched payload files (checked_content os payload f files)
    checked_content-Matched f found =
        if-split (Matched payload files)
          (not (f.owner == os.user) || not (length f.content == length payload))
          (λ other. differs (λ g (found', content, owner).
            absurd (let same : f ≡ g = cc in ground (arith, same, content, owner, other))))
          (λ same.
            if-split (Matched payload files) os.read_fails (λ down. refuses not_read down)
              (λ _.
                if-split (Matched payload files)
                  (not (str_eq (take (suc (length payload)) f.content) payload))
                  (λ other. differs (λ g (found', content, owner).
                    let full : f.content ≡ payload = cc in
                    absurd (
                      ground (
                        arith,
                        other,
                        whole f full,
                        (str_eq_iff (take (suc (length payload)) f.content) payload).1,
                      ))))
                  (λ equal.
                    checked_mode-Matched f (found, whole_content f same equal, owned f same))))

    helper_matches_at-Matched :
        (o : Option Node)
        → files helper_filename ≡ o
        → Matched payload files (helper_matches_at os payload o files)
    helper_matches_at-Matched none e = differs (λ f (found, _, _). cc)
    helper_matches_at-Matched (some symbolic_link) e = differs (λ f (found, _, _). cc)
    helper_matches_at-Matched (some other_kind) e =
        if-split (Matched payload files) os.stat_fails (λ down. refuses no_status down)
          (λ _. refuses not_regular e)
    helper_matches_at-Matched (some (regular f)) e =
        if-split (Matched payload files) os.stat_fails (λ down. refuses no_status down)
          (λ _. checked_content-Matched f e)

    pub helper_matches-Matched : Matched payload files (helper_matches os payload files)
    unfolding helper_matches
    helper_matches-Matched =
        if-split (Matched payload files) os.open_fails (λ down. refuses not_opened down)
          (λ _. helper_matches_at-Matched (files helper_filename) refl)
