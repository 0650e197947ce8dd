-- ===== src/PluginPool/Host/Expanded.antt =====
-- What `prepare` makes of the arguments and of the variables of a plugin.
use android_lib_box_lite.Common.{
  true, Option, none, some, List, [], ◌∷◌, ◌++◌, Str, bytes, str_eq, str_eq_iff, ◌≡◌, ◌≢◌, refl,
  sym, ap, ◌∙◌, subst, All, Bool-cases, if-split, inl, inr,
}
use android_lib_box_lite.Common.Variables.{is_variable, last_value, value_after, cut_entry}
use android_lib_box_lite.PluginPool.Options.{
  File, Spec, ok, first_ok, expand, token_prefix, token_suffix,
}
use android_lib_box_lite.PluginPool.Options
use android_lib_box_lite.PluginPool.Options.Names.{Distinct}
use android_lib_box_lite.PluginPool.Options.Expansion.{Expands, plain, token, expand_iff}
use android_lib_box_lite.PluginPool.Paths.{is_abs, join}
use android_lib_box_lite.PluginPool.Host.Written.{find_value}
use android_lib_box_lite.PluginPool.Guards.{expand_all, expand_environment}

abbrev pub names_of : List (Str × Str) → List Str
names_of [] = []
names_of ((k, v) ∷ variables) = k ∷ names_of variables

-- Each argument is what its value stands for.
pub data ExpandsEach (dir : Str) (names : List Str) : List Str → List Str → Type 0 where
  no_value : ExpandsEach dir names [] []
  one_value :
      {value expanded : Str} {values rest : List Str}
      → Expands dir names value expanded
      → ExpandsEach dir names values rest
      → ExpandsEach dir names (value ∷ values) (expanded ∷ rest)

-- An absolute value stays absolute: a reference at its start would begin with `$`.
pub Expands-is_abs :
    {dir value expanded : Str} {names : List Str}
    → Expands dir names value expanded
    → is_abs value ≡ true
    → is_abs expanded ≡ true
unfolding is_abs
Expands-is_abs (plain e) absolute = absolute
Expands-is_abs {dir} (token before name after expanded e f a b c rest) absolute =
    behind before (ap is_abs (sym e) ∙ absolute) f
  where
    behind :
        (before : Str) {result : Str}
        → is_abs (before ++ (token_prefix ++ (name ++ (token_suffix ++ after)))) ≡ true
        → result ≡ before ++ (join dir name ++ expanded)
        → is_abs result ≡ true
    behind [] g same = absurd (cc g)
    behind (x ∷ before) g same = rw same g

abbrev ok_value : Options.Result Str → Option Str
ok_value (ok w) = some w
ok_value (Options.err e) = none

-- What a variable has: its expanded value, or what it inherits.
abbrev pub expanded_value : Str → List Str → Option Str → Option Str → Option Str
expanded_value dir names none inherited = inherited
expanded_value dir names (some value) inherited = ok_value (expand value dir names)

module _ (dir : Str) (names : List Str) where
  pub expand_all-ExpandsEach :
      (values : List Str) {expanded : List Str}
      → expand_all dir names values ≡ ok expanded
      → ExpandsEach dir names values expanded
  unfolding expand_all
  expand_all-ExpandsEach [] {expanded} e = let same : expanded ≡ [] = cc e in rw same no_value
  expand_all-ExpandsEach (value ∷ values) {expanded} e =
      let (w, first, more) = first_ok (expand value dir names) _ e in
      let (ws, rest, last) = first_ok (expand_all dir names values) _ more in
      let same : expanded ≡ w ∷ ws = cc last in
      rw same
        (one_value ((expand_iff value dir names w).0 first) (expand_all-ExpandsEach values rest))

  find_value-absent :
      (key : Str) (variables : List (Str × Str))
      → All (λ k. key ≢ k) (names_of variables)
      → find_value key variables ≡ none
  find_value-absent key [] a = refl
  find_value-absent key ((k, v) ∷ variables) (ne, a) =
      if-split (λ (o : Option Str). o ≡ none) (str_eq k key)
        (λ e. absurd (ne (sym ((str_eq_iff k key).0 e)))) (λ _. find_value-absent key variables a)

  -- One more entry in front.
  entry-last_value :
      (key k v w : Str) (variables : List (Str × Str)) (entries : List Str) (before : Option Str)
      → is_variable k ≡ true
      → All (λ j. k ≢ j) (names_of variables)
      → expand v dir names ≡ ok w
      → ((o : Option Str)
          → last_value key entries o ≡ expanded_value dir names (find_value key variables) o)
      → last_value key ((k ++ (bytes "=" ++ w)) ∷ entries) before
        ≡ expanded_value dir names (find_value key ((k, v) ∷ variables)) before
  entry-last_value key k v w variables entries before good apart first later =
      ap (λ (o : Option (Str × Str)). last_value key entries (value_after key o before))
        (cut_entry k w good)
      ∙ elim (Bool-cases (str_eq k key)) [
        | inl hit ↦
            let absent : find_value key variables ≡ none = find_value-absent key variables (
              subst (λ (s : Str). All (λ j. s ≢ j) (names_of variables)) ((str_eq_iff k key).0 hit)
                apart) in
            rw hit (
              later (some w)
              ∙ ap (λ (o : Option Str). expanded_value dir names o (some w)) absent
              ∙ sym (ap ok_value first))
        | inr miss ↦ rw miss (later before)
      ]

  pub expand_environment-last_value :
      (key : Str) (variables : List (Str × Str)) (before : Option Str) {entries : List Str}
      → expand_environment dir names variables ≡ ok entries
      → All (λ k. is_variable k ≡ true) (names_of variables)
      → Distinct (names_of variables)
      → last_value key entries before ≡ expanded_value dir names (find_value key variables) before
  unfolding expand_environment
  expand_environment-last_value key [] before {entries} e good apart =
      let same : entries ≡ [] = cc e in rw same refl
  expand_environment-last_value key ((k, v) ∷ variables) before {entries} e good apart =
      let (w, first, more) = first_ok (expand v dir names) _ e in
      let (es, rest, last) = first_ok (expand_environment dir names variables) _ more in
      let same : entries ≡ (k ++ (bytes "=" ++ w)) ∷ es = cc last in
      rw same (
        entry-last_value key k v w variables es before good.0 apart.0 first
          (λ o. expand_environment-last_value key variables o rest good.1 apart.1))

pub last_value-append :
    (key : Str) (xs ys : List Str) (before : Option Str)
    → last_value key (xs ++ ys) before ≡ last_value key ys (last_value key xs before)
last_value-append key [] ys before = refl
last_value-append key (x ∷ xs) ys before = last_value-append key xs ys _
