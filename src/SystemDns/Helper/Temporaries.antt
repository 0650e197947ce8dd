-- ===== src/SystemDns/Helper/Temporaries.antt =====
-- The temporaries of `ensureHelper`: the sweep of stale ones, and the one that becomes the helper file.
use android_lib_box_lite.Common.{
  true, Option, none, some, List, [], ◌∷◌, Str, str_eq, str_eq_iff, if-split, All, ◌≡◌, ◌⊎◌, inl,
  inr, refl, sym, ◌∙◌, Bool-cases, cut_prefix,
}
use android_lib_box_lite.SystemDns.Helper.{
  not_chmod, not_written, not_synced, not_closed, not_renamed, helper_filename, is_temporary,
  read_only, private, Node, Files, put, Error, Os, remove, is_stale, remove_stale, temporary, fill,
}
use android_lib_box_lite.SystemDns.Helper.Matching.{IsCause, put_same, put_elsewhere}

pub helper-not-temporary : is_temporary helper_filename ≡ true → ⊥
unfolding is_temporary cut_prefix
helper-not-temporary t = cc

module _ (os : Os) where
  -- Of a name the sweep removes nothing, or a stale temporary.
  abbrev pub IsSweptAt : Files → Files → Str → Type 0
  IsSweptAt files files' name =
      (files' name ≡ files name)
      ⊎ ((is_temporary name ≡ true) × (is_stale os name (files name) ≡ true) × (files' name ≡ none))

  pub remove_stale-IsSweptAt :
      (names : List Str) (files : Files)
      → All (λ name. is_temporary name ≡ true) names
      → (name : Str) → IsSweptAt files (remove_stale os names files) name
  unfolding remove_stale
  remove_stale-IsSweptAt [] files all name = inl refl
  remove_stale-IsSweptAt (first ∷ names) files (temp, all) name =
      if-split (λ (f : Files). IsSweptAt files (remove_stale os names f) name)
        (is_stale os first (files first))
        (λ stale.
          if-split (λ (f : Files). IsSweptAt files (remove_stale os names f) name)
            (os.remove_fails first) (λ _. remove_stale-IsSweptAt names files all name)
            (λ _. elim (put_elsewhere first none files name) [
              | inl same ↦ elim (remove_stale-IsSweptAt names (put first none files) all name) [
                | inl kept ↦ inl (kept ∙ same)
                | inr (t, s, gone) ↦ inr (t, rw (sym same) s, gone)
              ]
              | inr e ↦
                  let (stale', temp') : (is_stale os name (files name) ≡ true)
                      × (is_temporary name ≡ true) =
                    rw e (stale, temp) in
                  let empty : put first none files name ≡ none = rw e (put_same first none files) in
                  elim (remove_stale-IsSweptAt names (put first none files) all name) [
                    | inl kept ↦ inr (temp', stale', kept ∙ empty)
                    | inr (_, _, gone) ↦ inr (temp', stale', gone)
                  ]
            ]))
        (λ _. remove_stale-IsSweptAt names files all name)

  -- Before the temporary is removed, all but it, and the helper file after a rename, is as it was.
  pub data Filled (path payload name : Str) (files : Files)
      : Files × (Str × Option Error) → Type 0 where
    renamed :
        (files' : Files)
        → files' helper_filename ≡ temporary os payload read_only
        → ((n : Str) → (files' n ≡ files n) ⊎ (n ≡ name) ⊎ (n ≡ helper_filename))
        → Filled path payload name files (files', (path, none))
    stopped :
        (files' : Files) (e : Error)
        → ((before : Files) → IsCause os before e)
        → ((n : Str) → (files' n ≡ files n) ⊎ (n ≡ name))
        → Filled path payload name files (files', ([], some e))

  put_twice :
      (name : Str) (a b : Option Node) (files : Files) (n : Str)
      → (put name a (put name b files) n ≡ files n) ⊎ (n ≡ name)
  put_twice name a b files n = elim (Bool-cases (str_eq name n)) [
    | inl same ↦ inr (sym ((str_eq_iff name n).0 same))
    | inr other ↦ inl (rw other refl)
  ]

  moved :
      (name : Str) (helper x y : Option Node) (files : Files) (n : Str)
      → (put helper_filename helper (put name none (put name x (put name y files))) n ≡ files n)
        ⊎ (n ≡ name)
        ⊎ (n ≡ helper_filename)
  moved name helper x y files n =
      elim (put_elsewhere helper_filename helper (put name none (put name x (put name y files)))
        n) [
          | inr e ↦ inr (inr e)
          | inl kept ↦ elim (Bool-cases (str_eq name n)) [
            | inl same ↦ inr (inl (sym ((str_eq_iff name n).0 same)))
            | inr other ↦ inl (kept ∙ rw other refl)
          ]
        ]

  pub fill-Filled :
      (path payload name : Str) (written : Option Str) (files : Files)
      → os.write_fails ≡ written
      → Filled path payload name files
          (fill os path payload name written (put name (temporary os [] private) files))
  fill-Filled path payload name (some part) files given =
      stopped _ not_written (λ _. (part, given)) (put_twice name _ _ files)
  fill-Filled path payload name none files given =
      let P : Files × (Str × Option Error) → Type 0 = Filled path payload name files in
      if-split P os.temp_chmod_fails
        (λ down. stopped _ not_chmod (λ _. inr down) (put_twice name _ _ files))
        (λ _.
          if-split P os.sync_fails
            (λ down. stopped _ not_synced (λ _. down) (put_twice name _ _ files))
            (λ _.
              if-split P os.close_fails
                (λ down. stopped _ not_closed (λ _. down) (put_twice name _ _ files))
                (λ _.
                  if-split P os.rename_fails
                    (λ down. stopped _ not_renamed (λ _. down) (put_twice name _ _ files))
                    (λ _.
                      renamed _
                        (put_same helper_filename _ (put name none (put name _ (put name _ files))))
                        (moved name _ _ _ files)))))

  -- What the deferred removal makes of a name.
  pub remove_elsewhere :
      (name : Str) (swept files' : Files) (n : Str)
      → is_temporary name ≡ true
      → swept name ≡ none
      → (files' n ≡ swept n) ⊎ (n ≡ name)
      → (remove os name files' n ≡ swept n) ⊎ ((is_temporary n ≡ true) × (os.remove_fails n ≡ true))
  remove_elsewhere name swept files' n t new was =
      if-split
        (λ (f : Files). (f n ≡ swept n) ⊎ ((is_temporary n ≡ true) × (os.remove_fails n ≡ true)))
        (os.remove_fails name)
        (λ fails. elim was [ inl kept ↦ inl kept | inr e ↦ inr (rw e (t, fails)) ])
        (λ _. elim (put_elsewhere name none files' n) [
          | inr e ↦ inl (rw e (put_same name none files' ∙ sym new))
          | inl same ↦ elim was [
            | inl kept ↦ inl (same ∙ kept)
            | inr e ↦ inl (rw e (put_same name none files' ∙ sym new))
          ]
        ])

  pub remove-helper :
      (name : Str) (files : Files)
      → is_temporary name ≡ true
      → remove os name files helper_filename ≡ files helper_filename
  remove-helper name files t =
      if-split (λ (f : Files). f helper_filename ≡ files helper_filename) (os.remove_fails name)
        (λ _. refl)
        (λ _. elim (put_elsewhere name none files helper_filename) [
          | inl same ↦ same
          | inr e ↦ absurd (helper-not-temporary (rw e t))
        ])
