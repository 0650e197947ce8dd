-- ===== src/Common/Search.antt =====
-- `cut` finds the first occurrence of a separator, and `contains` tells whether there is one. A
-- separator is written `init ++ (last ∷ [])`: it occurs first behind `before` exactly when
-- `before ++ init` does not contain it.
use Prim.Native.Nat.{ℕ, ◌≤◌, ◌<◌}
use mathlib.Core.Path.{◌≡◌, sym, ap, ◌∙◌}
use mathlib.Core.Logic.{inl, inr}
use mathlib.Core.Bool.{false}
use mathlib.Core.Option.{none, some}
use mathlib.Core.List.{[], ◌∷◌, ◌++◌, append_assoc}
use native.Mathlib.Omega.{arith}
use android_lib_box_lite.Common.Tests.{Option-cases}
use android_lib_box_lite.Common.Lists.{length, length-append}
use android_lib_box_lite.Common.Bytes.{
  Str, cut_prefix, cut_prefix-append, cut_prefix_sound, cut, cut_sound, contains,
}

cut_prefix-extend :
    (p s t r : Str) → cut_prefix p s ≡ some r → cut_prefix p (s ++ t) ≡ some (r ++ t)
unfolding cut_prefix
cut_prefix-extend [] s t r e = cc
cut_prefix-extend (c ∷ p) [] t r e = cc
cut_prefix-extend (c ∷ p) (d ∷ s) t r e = ground (arith, cut_prefix-extend p s t r)

cut_prefix-shrink :
    (p s t : Str) → length p ≤ length s → cut_prefix p s ≡ none → cut_prefix p (s ++ t) ≡ none
unfolding cut_prefix
cut_prefix-shrink [] s t h e = cc
cut_prefix-shrink (c ∷ p) [] t h e = absurd (omega arith)
cut_prefix-shrink (c ∷ p) (d ∷ s) t h e = ground (arith, cut_prefix-shrink p s t)

cut_prefix_short : (p s : Str) → length s < length p → cut_prefix p s ≡ none
cut_prefix_short p s h = elim (Option-cases (cut_prefix p s)) [
  | inl e ↦ e
  | inr (r, e) ↦ absurd (omega (arith, ap length (cut_prefix_sound p s r e), length-append p r))
]

-- What stands behind the first occurrence is shorter than the whole.
pub cut_shorter :
    (sep s : Str) {before after : Str}
    → 0 < length sep
    → cut sep s ≡ some (before, after)
    → length after < length s
cut_shorter sep s {before} {after} h e = omega (
  arith,
  ap length (cut_sound sep s before after e),
  length-append before (sep ++ after),
  length-append sep after,
)

pub contains-none : (sep s : Str) → contains sep s ≡ false → cut sep s ≡ none
unfolding contains
contains-none sep s e = ground arith

pub none-contains : (sep s : Str) → cut sep s ≡ none → contains sep s ≡ false
unfolding contains
none-contains sep s e = ground arith

contains_short : (sep s : Str) → length s < length sep → contains sep s ≡ false
unfolding contains cut
contains_short sep [] h = ground (arith, cut_prefix_short sep [])
contains_short sep (c ∷ s) h = ground (arith, cut_prefix_short sep (c ∷ s), contains_short sep s)

contains_tail :
    (sep : Str) (c : ℕ) (s : Str)
    → (contains sep (c ∷ s) ≡ false → (cut_prefix sep (c ∷ s) ≡ none) × (contains sep s ≡ false))
unfolding contains cut
contains_tail sep c s e = ground arith

contains_step :
    (sep : Str) (c : ℕ) (s : Str)
    → cut_prefix sep (c ∷ s) ≡ none
    → contains sep s ≡ false
    → contains sep (c ∷ s) ≡ false
unfolding contains cut
contains_step sep c s a b = ground arith

cut_here : (sep s r : Str) → cut_prefix sep s ≡ some r → cut sep s ≡ some ([], r)
unfolding cut
cut_here sep [] r e = ground (arith)
cut_here sep (c ∷ s) r e = ground (arith)

cut_later :
    (sep : Str) (c : ℕ) (s before after : Str)
    → cut_prefix sep (c ∷ s) ≡ none
    → cut sep s ≡ some (before, after)
    → cut sep (c ∷ s) ≡ some (c ∷ before, after)
unfolding cut
cut_later sep c s before after e h = ground (arith)

module _ (init : Str) (last : ℕ) where
  abbrev sep : Str
  sep = init ++ (last ∷ [])

  regroup : (before after : Str) → before ++ (sep ++ after) ≡ (before ++ init) ++ (last ∷ after)
  regroup before after =
      ap (λ (t : Str). before ++ t) (append_assoc init (last ∷ []) after)
      ∙ sym (append_assoc before init (last ∷ after))

  pub cut_first :
      (before after : Str)
      → contains sep (before ++ init) ≡ false
      → cut sep (before ++ (sep ++ after)) ≡ some (before, after)
  cut_first [] after h = cut_here sep (sep ++ after) after (cut_prefix-append sep after)
  cut_first (c ∷ before) after h =
      let (absent, rest) = contains_tail sep c (before ++ init) h in
      let absent' : cut_prefix sep (c ∷ (before ++ (sep ++ after))) ≡ none =
        rw (regroup before after) (
          cut_prefix-shrink sep (c ∷ (before ++ init)) (last ∷ after)
            (omega (arith, length-append before init, length-append init (last ∷ []))) absent) in
      cut_later sep c (before ++ (sep ++ after)) before after absent' (cut_first before after rest)

  absent_before :
      (c : ℕ) (s before after : Str)
      → s ≡ before ++ (sep ++ after)
      → cut_prefix sep (c ∷ s) ≡ none
      → cut_prefix sep (c ∷ (before ++ init)) ≡ none
  absent_before c s before after same e =
      elim (Option-cases (cut_prefix sep (c ∷ (before ++ init)))) [
        | inl h ↦ h
        | inr (r, h) ↦ cc (
          cut_prefix-extend sep (c ∷ (before ++ init)) (last ∷ after) r h,
          ap (λ (t : Str). cut_prefix sep (c ∷ t)) (same ∙ regroup before after),
        )
      ]

  init_short : contains sep init ≡ false
  init_short = contains_short sep init (omega (arith, length-append init (last ∷ [])))

  pub first_cut :
      (s before after : Str)
      → cut sep s ≡ some (before, after)
      → contains sep (before ++ init) ≡ false
  unfolding cut
  first_cut [] before after e =
      ground (arith, cut_prefix_short sep [] (omega (arith, length-append init (last ∷ []))))
  first_cut (c ∷ s) before after e = elim (Option-cases (cut_prefix sep (c ∷ s))) [
    | inr (r, h) ↦ let empty : before ≡ [] = ground arith in rw empty init_short
    | inl h ↦ elim (Option-cases (cut sep s)) [
      | inl n ↦ ground arith
      | inr ((before', after'), found) ↦
          let longer : before ≡ c ∷ before' = ground arith in
          rw longer (
            contains_step sep c (before' ++ init)
              (absent_before c s before' after' (cut_sound sep s before' after' found) h)
              (first_cut s before' after' found))
    ]
  ]
