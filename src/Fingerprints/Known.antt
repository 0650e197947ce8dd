-- ===== src/Fingerprints/Known.antt =====
-- Which names are fingerprints.
use android_lib_box_lite.Common.{
  ℕ, ◌<◌, Bool, true, false, ◌||◌, Option, none, some, List, [], ◌∷◌, ◌++◌, Str, bytes, str_eq,
  str_eq_iff, str_eq_refl, has, has-append, is_some, if◌then◌else◌, if-split, length, ◌≡◌, inl, inr,
  refl, sym, ap, ◌∙◌, arith, Bool-cases,
}
use android_lib_box_lite.Fingerprints.Tables.{
  Profile, seeded_alpn, seeded_no_alpn, Table, lookup, assign, chrome, preset_fingerprints,
  modern_fingerprints, other_fingerprints, utls,
}
use android_lib_box_lite.Fingerprints.{init, aliases, alias_of, find, client_hello_id}
use android_lib_box_lite.Fingerprints.Lookup.{
  names_of, IsListed, lookup-names_of, IsListed-set, choose-random, lookup_whole, or_names,
}

-- The presets but `unsafe`.
abbrev pub preset_names : List Str
preset_names =
    bytes "chrome"
    ∷ bytes "firefox"
    ∷ bytes "safari"
    ∷ bytes "ios"
    ∷ bytes "android"
    ∷ bytes "edge"
    ∷ bytes "360"
    ∷ bytes "qq"
    ∷ bytes "random"
    ∷ bytes "randomized"
    ∷ bytes "randomizednoalpn"
    ∷ []

-- All names in lower case.
abbrev pub known_names : List Str
known_names =
    []
    ∷ (aliases ++ (preset_names ++ (names_of modern_fingerprints ++ names_of other_fingerprints)))

-- The presets that are there after `init`.
abbrev presets_with : Profile → Table
presets_with p =
    (bytes "chrome", some (utls (bytes "HelloChrome_Auto")))
    ∷ (bytes "firefox", some (utls (bytes "HelloFirefox_Auto")))
    ∷ (bytes "safari", some (utls (bytes "HelloSafari_Auto")))
    ∷ (bytes "ios", some (utls (bytes "HelloIOS_Auto")))
    ∷ (bytes "android", some (utls (bytes "HelloAndroid_11_OkHttp")))
    ∷ (bytes "edge", some (utls (bytes "HelloEdge_Auto")))
    ∷ (bytes "360", some (utls (bytes "Hello360_Auto")))
    ∷ (bytes "qq", some (utls (bytes "HelloQQ_Auto")))
    ∷ (bytes "random", some p)
    ∷ (bytes "randomized", some seeded_alpn)
    ∷ (bytes "randomizednoalpn", some seeded_no_alpn)
    ∷ []

unsafe_entry : Table
unsafe_entry = (bytes "unsafe", none) ∷ []

init-presets_with :
    (stop_at : ℕ) (order : Table)
    → stop_at < length order
    → ((entry : Str × Option Profile) → IsListed entry order → IsListed entry modern_fingerprints)
    → (p : Profile) × (key : Str) × IsListed (key, some p) modern_fingerprints
      × (init stop_at order ≡ presets_with p ++ unsafe_entry)
unfolding init assign str_eq unsafe_entry
init-presets_with stop_at order h modern =
    let (key, value, listed, chosen) =
      choose-random 0 stop_at stop_at order preset_fingerprints (omega arith) h in
    let (p, is_set) =
      IsListed-set modern_fingerprints key value refl (modern (key, value) listed) in
    (
      p,
      key,
      rw⁻¹ is_set (modern (key, value) listed),
      ap
          (λ (t : Table).
            assign (bytes "randomizednoalpn") (some seeded_no_alpn)
              (assign (bytes "randomized") (some seeded_alpn) t))
          (chosen
            ∙ ap (λ (v : Option Profile). assign (bytes "random") v preset_fingerprints) is_set),
    )

unsafe_entry-lookup : (name : Str) → is_some (lookup name unsafe_entry) ≡ false
unfolding lookup unsafe_entry
unsafe_entry-lookup name =
    if-split (λ (o : Option Profile). is_some o ≡ false) (str_eq (bytes "unsafe") name) (λ _. refl)
      (λ _. refl)

presets-names :
    (p : Profile) (name : Str)
    → is_some (lookup name (presets_with p ++ unsafe_entry)) ≡ has preset_names name
presets-names p name =
    let front = lookup-names_of (presets_with p) unsafe_entry name refl in
    let last = unsafe_entry-lookup name in
    or_false (has preset_names name) (is_some (lookup name unsafe_entry)) _ front last
  where
    or_false : (a b c : Bool) → c ≡ (a || b) → b ≡ false → c ≡ a
    or_false a b c e f = ground arith

find-names_of :
    (p : Profile) (name : Str)
    → is_some (find (presets_with p ++ unsafe_entry) name)
      ≡ has (preset_names ++ (names_of modern_fingerprints ++ names_of other_fingerprints)) name
find-names_of p name =
    or_names preset_names (names_of modern_fingerprints) (names_of other_fingerprints)
      (lookup name (presets_with p ++ unsafe_entry)) (lookup name modern_fingerprints)
      (lookup name other_fingerprints) name (presets-names p name)
      (lookup_whole modern_fingerprints name refl) (lookup_whole other_fingerprints name refl)

-- The empty name and the aliases stand for Chrome, which is known.
lower_known :
    (old names : List Str) (find : Str → Option Profile) (lower : Str)
    → ((n : Str) → is_some (find n) ≡ has names n)
    → has names (bytes "chrome") ≡ true
    → is_some (
        if str_eq lower []
        then some chrome
        else find (if has old lower then bytes "chrome" else lower))
      ≡ has ([] ∷ (old ++ names)) lower
unfolding has
lower_known old names find lower found there =
    if-split (λ (o : Option Profile). is_some o ≡ (str_eq [] lower || has (old ++ names) lower))
      (str_eq lower [])
      (λ empty.
        let same : str_eq [] lower ≡ true = rw ((str_eq_iff lower []).0 empty) (str_eq_refl []) in
        rw same refl)
      (λ full.
        let other : str_eq [] lower ≡ false = elim (Bool-cases (str_eq [] lower)) [
          | inr n ↦ n
          | inl y ↦ cc (full, (str_eq_iff lower []).1 (sym ((str_eq_iff [] lower).0 y)))
        ] in
        rw (other, has-append old names lower)
          (if-split (λ (n : Str). is_some (find n) ≡ (has old lower || has names lower))
            (has old lower) (λ alias. rw alias (found (bytes "chrome") ∙ there))
            (λ new. rw new (found lower))))

chrome_there :
    has
      (preset_names ++ (names_of modern_fingerprints ++ names_of other_fingerprints))
      (bytes "chrome")
    ≡ true
unfolding has str_eq
chrome_there = refl

random_there : (p : Profile) → lookup (bytes "random") (presets_with p ++ unsafe_entry) ≡ some p
unfolding lookup str_eq
random_there p = refl

-- After `init`, in whatever order Go walks the modern fingerprints and whichever of them it chooses, a
-- name has a profile exactly when it is in lower case empty, an old alias of Chrome, or a name of a table
-- other than "unsafe"; and "random" is one of the modern profiles.
pub client_hello_id_known :
    (to_lower : Str → Str) (stop_at : ℕ) (order : Table) (name : Str)
    → stop_at < length order
    → ((entry : Str × Option Profile) → IsListed entry order → IsListed entry modern_fingerprints)
    → (is_some (client_hello_id to_lower (init stop_at order) name)
        ≡ has known_names (to_lower name))
      × ((p : Profile) × (key : Str) × (lookup (bytes "random") (init stop_at order) ≡ some p)
          × IsListed (key, some p) modern_fingerprints)
unfolding client_hello_id
client_hello_id_known to_lower stop_at order name h modern =
    let (p, key, listed, presets) = init-presets_with stop_at order h modern in
    (
      ap
            (λ (t : Table). is_some (
              if str_eq (to_lower name) [] then some chrome else find t (alias_of (to_lower name))))
            presets
          ∙ lower_known aliases
              (preset_names ++ (names_of modern_fingerprints ++ names_of other_fingerprints))
              (find (presets_with p ++ unsafe_entry)) (to_lower name) (find-names_of p)
              chrome_there,
      (p, key, ap (lookup (bytes "random")) presets ∙ random_there p, listed),
    )
