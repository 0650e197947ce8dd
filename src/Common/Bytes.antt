-- ===== src/Common/Bytes.antt =====
-- Go strings and byte slices as lists of byte values, with what the code uses of package `strings`.
use Prim.Native.Nat.{ℕ}
use Prim.Native.Char.{code}
use Prim.Native.String.{String}
use mathlib.Core.Path.{◌≡◌, refl, sym, ap, ap₂, ◌∙◌}
use mathlib.Core.Logic.{◌↔◌, inl, inr}
use mathlib.Core.Bool.{Bool, true, false, ◌&&◌, ◌||◌}
use mathlib.Core.Option
use mathlib.Core.Option.{Option, none, some}
use mathlib.Core.List.{List, [], ◌∷◌, ◌++◌, reverse, reverse-append, reverse-reverse}
use native.Mathlib.Omega.{arith}
use android_lib_box_lite.Common.Tests.{◌==◌, if◌then◌else◌, Option-cases}

abbrev pub Str : Type 0
Str = List ℕ

-- The bytes of an ASCII text.
abbrev pub bytes : String → Str
bytes String.[] = []
bytes (String.◌∷◌ c s) = code c ∷ bytes s

unfoldable pub str_eq : Str → Str → Bool
str_eq [] [] = true
str_eq [] (d ∷ t) = false
str_eq (c ∷ s) [] = false
str_eq (c ∷ s) (d ∷ t) = c == d && str_eq s t

pub str_eq_iff : (s t : Str) → (str_eq s t ≡ true) ↔ (s ≡ t)
unfolding str_eq
str_eq_iff [] [] = (λ _. refl, λ _. refl)
str_eq_iff [] (d ∷ t) = (λ e. cc, λ e. cc)
str_eq_iff (c ∷ s) [] = (λ e. cc, λ e. cc)
str_eq_iff (c ∷ s) (d ∷ t) =
    (λ e. ground (arith, str_eq_iff s t), λ e. ground (arith, str_eq_iff s t))

pub str_eq_refl : (s : Str) → str_eq s s ≡ true
str_eq_refl s = (str_eq_iff s s).1 refl

-- A map[string]bool that is only ever set to true is the list of its keys.
unfoldable pub has : List Str → Str → Bool
has [] k = false
has (j ∷ m) k = str_eq j k || has m k

-- The rest of `s` behind the prefix `p` (strings.CutPrefix).
unfoldable pub cut_prefix : Str → Str → Option Str
cut_prefix [] s = some s
cut_prefix (c ∷ p) [] = none
cut_prefix (c ∷ p) (d ∷ s) = let rest = cut_prefix p s in if c == d then rest else none

pub cut_prefix-append : (p s : Str) → cut_prefix p (p ++ s) ≡ some s
unfolding cut_prefix
cut_prefix-append [] s = refl
cut_prefix-append (c ∷ p) s = ground (arith, cut_prefix-append p s)

pub cut_prefix_sound : (p s t : Str) → cut_prefix p s ≡ some t → s ≡ p ++ t
unfolding cut_prefix
cut_prefix_sound [] s t e = cc
cut_prefix_sound (c ∷ p) [] t e = cc
cut_prefix_sound (c ∷ p) (d ∷ s) t e = ground (arith, cut_prefix_sound p s t)

-- One more byte in front of what was found later.
abbrev keep : ℕ → Option (Str × Str) → Option (Str × Str)
keep c none = none
keep c (some (before, after)) = some (c ∷ before, after)

abbrev first_found : Option Str → Option (Str × Str) → Option (Str × Str)
first_found (some after) later = some ([], after)
first_found none later = later

-- strings.Cut: the parts before and after the first `sep`; `none` is Go's found == false.
unfoldable pub cut : Str → Str → Option (Str × Str)
cut sep [] = first_found (cut_prefix sep []) none
cut sep (c ∷ s) = let later = keep c (cut sep s) in first_found (cut_prefix sep (c ∷ s)) later

pub cut_sound :
    (sep s before after : Str) → cut sep s ≡ some (before, after) → s ≡ before ++ (sep ++ after)
unfolding cut
cut_sound sep [] b a e = ground (arith, cut_prefix_sound sep [] a)
cut_sound sep (c ∷ s) b a e = elim (Option-cases (cut_prefix sep (c ∷ s))) [
  | inl n ↦ elim (Option-cases (cut sep s)) [
    | inl m ↦ ground (arith)
    | inr ((b', a'), h) ↦ ground (arith, cut_sound sep s b' a' h)
  ]
  | inr (r, h) ↦ ground (arith, cut_prefix_sound sep (c ∷ s) r h)
]

-- strings.Contains
unfoldable pub contains : Str → Str → Bool
contains sep s = elim (cut sep s) [ none ↦ false | some _ ↦ true ]

-- strings.HasSuffix and strings.TrimSuffix at once.
unfoldable pub cut_suffix : Str → Str → Option Str
cut_suffix s suffix = Option.map reverse (cut_prefix (reverse suffix) (reverse s))

unfoldable pub is_any : ℕ → Str → Bool
is_any c [] = false
is_any c (d ∷ chars) = c == d || is_any c chars

pub cut_suffix_sound : (s u t : Str) → cut_suffix s u ≡ some t → s ≡ t ++ u
unfolding cut_suffix
cut_suffix_sound s u t e = elim (Option-cases (cut_prefix (reverse u) (reverse s))) [
  | inl n ↦ absurd (cc (rw n at e))
  | inr (r, h) ↦
      let same : reverse r ≡ t = cc (rw h at e) in
      sym (reverse-reverse s)
      ∙ ap reverse (cut_prefix_sound (reverse u) (reverse s) r h)
      ∙ reverse-append (reverse u) r
      ∙ ap₂ ◌++◌ same (reverse-reverse u)
]

-- strings.ContainsAny
unfoldable pub contains_any : Str → Str → Bool
contains_any [] chars = false
contains_any (c ∷ s) chars = is_any c chars || contains_any s chars

pub has-append : (xs ys : List Str) (k : Str) → has (xs ++ ys) k ≡ (has xs k || has ys k)
unfolding has
has-append [] ys k = refl
has-append (x ∷ xs) ys k = ground (arith, has-append xs ys k)
