-- ===== src/PluginPool/Options/Expansion.antt =====
-- `expand` against a relation that says what a text with file references stands for.
use android_lib_box_lite.Common.{
  ℕ, zero, suc, ◌<◌, true, false, none, some, List, [], ◌∷◌, ◌++◌, Str, bytes, has, cut, cut_sound,
  contains, length, ◌≡◌, ◌≢◌, ◌↔◌, inl, inr, refl, sym, ap, ◌∙◌, arith, Bool-cases, Option-cases,
  append_assoc,
}
use android_lib_box_lite.Common.Search.{
  cut_shorter, contains-none, none-contains, cut_first, first_cut,
}
use android_lib_box_lite.PluginPool.Paths.{join}
use android_lib_box_lite.PluginPool.Options.{
  out_of_fuel, unterminated_reference, unknown_file, ok, err, token_prefix, token_suffix,
  expand_loop, expand,
}

-- The first `sep`, which ends in `last` behind `init`, stands behind `before`.
abbrev FirstBehind : Str → Str → ℕ → Type 0
FirstBehind before init last = contains (init ++ (last ∷ [])) (before ++ init) ≡ false

abbrev pub token_start : Str
token_start = bytes "${file"

-- A text without a token stands for itself. The first token of a text is closed by the next '}' and
-- names a written file; its place is taken by the path of that file, and the rest is expanded.
pub data Expands (dir : Str) (files : List Str) : Str → Str → Type 0 where
  plain : {value : Str} → contains token_prefix value ≡ false → Expands dir files value value
  token :
      {value result : Str} (before name after expanded : Str)
      → value ≡ before ++ (token_prefix ++ (name ++ (token_suffix ++ after)))
      → result ≡ before ++ (join dir name ++ expanded)
      → FirstBehind before token_start b':'
      → FirstBehind name [] b'}'
      → has files name ≡ true
      → Expands dir files after expanded
      → Expands dir files value result

module _ (dir : Str) (files : List Str) where
  loop_end :
      (fuel : ℕ) (value out : Str)
      → cut token_prefix value ≡ none
      → expand_loop (suc fuel) value dir files out ≡ ok (out ++ value)
  unfolding expand_loop
  loop_end fuel value out e = rw (e, expand_loop)

  loop_unterminated :
      (fuel : ℕ) (value out before rest : Str)
      → cut token_prefix value ≡ some (before, rest)
      → cut token_suffix rest ≡ none
      → expand_loop (suc fuel) value dir files out ≡ err unterminated_reference
  unfolding expand_loop
  loop_unterminated fuel value out before rest e h = rw (e, expand_loop) (rw (h, expand_loop))

  loop_unknown :
      (fuel : ℕ) (value out before rest name after : Str)
      → cut token_prefix value ≡ some (before, rest)
      → cut token_suffix rest ≡ some (name, after)
      → has files name ≡ false
      → expand_loop (suc fuel) value dir files out ≡ err (unknown_file name)
  unfolding expand_loop
  loop_unknown fuel value out before rest name after e h k =
      rw (e, expand_loop) (rw (h, expand_loop) (rw (k, expand_loop)))

  loop_step :
      (fuel : ℕ) (value out before rest name after : Str)
      → cut token_prefix value ≡ some (before, rest)
      → cut token_suffix rest ≡ some (name, after)
      → has files name ≡ true
      → expand_loop (suc fuel) value dir files out
        ≡ expand_loop fuel after dir files ((out ++ before) ++ join dir name)
  unfolding expand_loop
  loop_step fuel value out before rest name after e h k =
      rw (e, expand_loop) (rw (h, expand_loop) (rw (k, expand_loop)))

  regroup :
      (out before path rest : Str)
      → ((out ++ before) ++ path) ++ rest ≡ out ++ (before ++ (path ++ rest))
  regroup out before path rest =
      append_assoc (out ++ before) path rest ∙ append_assoc out before (path ++ rest)

  expand_loop_sound :
      (fuel : ℕ) (value out w : Str)
      → expand_loop fuel value dir files out ≡ ok w
      → (w' : Str) × (w ≡ out ++ w') × Expands dir files value w'
  expand_loop_sound zero value out w e = unfold expand_loop in cc
  expand_loop_sound (suc fuel) value out w e = elim (Option-cases (cut token_prefix value)) [
    | inl n ↦ (value, cc (loop_end fuel value out n), plain (none-contains token_prefix value n))
    | inr ((before, rest), h) ↦ elim (Option-cases (cut token_suffix rest)) [
      | inl n ↦ cc (loop_unterminated fuel value out before rest h n)
      | inr ((name, after), h') ↦ elim (Bool-cases (has files name)) [
        | inr b ↦ cc (loop_unknown fuel value out before rest name after h h' b)
        | inl b ↦
            let more =
              expand_loop_sound fuel after ((out ++ before) ++ join dir name) w
                (sym (loop_step fuel value out before rest name after h h' b) ∙ e) in
            (
              before ++ (join dir name ++ more.0),
              more.1 ∙ regroup out before (join dir name) more.0,
              token before name after more.0
                  (cut_sound token_prefix value before rest h
                    ∙ ap (λ (t : Str). before ++ (token_prefix ++ t))
                        (cut_sound token_suffix rest name after h'))
                  refl (first_cut token_start b':' value before rest h)
                  (first_cut [] b'}' rest name after h') b more.2,
            )
      ]
    ]
  ]

  token_cut :
      (value before name after : Str)
      → value ≡ before ++ (token_prefix ++ (name ++ (token_suffix ++ after)))
      → FirstBehind before token_start b':'
      → cut token_prefix value ≡ some (before, name ++ (token_suffix ++ after))
  token_cut value before name after same first = rw same (cut_first token_start b':' before _ first)

  expand_loop_complete :
      (fuel : ℕ) {value w : Str} (out : Str)
      → Expands dir files value w
      → length value < fuel
      → expand_loop fuel value dir files out ≡ ok (out ++ w)
  expand_loop_complete zero out x h = elim h [ ]
  expand_loop_complete (suc fuel) {value} out (plain n) h =
      loop_end fuel value out (contains-none token_prefix value n)
  expand_loop_complete (suc fuel) {value} out
        (token before name after expanded same same' first first' known more) h =
      let rest = name ++ (token_suffix ++ after) in
      let found = token_cut value before name after same first in
      let closed = cut_first [] b'}' name after first' in
      loop_step fuel value out before rest name after found closed known
      ∙ expand_loop_complete fuel ((out ++ before) ++ join dir name) more (
          omega (
            arith,
            cut_shorter token_prefix value (omega arith) found,
            cut_shorter token_suffix rest (omega arith) closed,
          ))
      ∙ ap ok (regroup out before (join dir name) expanded ∙ ap (λ (t : Str). out ++ t) (sym same'))

  expand_loop-ne-fuel :
      (fuel : ℕ) (value out : Str)
      → length value < fuel
      → expand_loop fuel value dir files out ≢ err out_of_fuel
  expand_loop-ne-fuel zero value out h = elim h [ ]
  expand_loop-ne-fuel (suc fuel) value out h = elim (Option-cases (cut token_prefix value)) [
    | inl n ↦ rw (loop_end fuel value out n) (λ e. cc)
    | inr ((before, rest), found) ↦ elim (Option-cases (cut token_suffix rest)) [
      | inl n ↦ rw (loop_unterminated fuel value out before rest found n) (λ e. cc)
      | inr ((name, after), closed) ↦ elim (Bool-cases (has files name)) [
        | inr b ↦ rw (loop_unknown fuel value out before rest name after found closed b) (λ e. cc)
        | inl b ↦ rw (loop_step fuel value out before rest name after found closed b) (
            expand_loop-ne-fuel fuel after _ (
              omega (
                arith,
                cut_shorter token_prefix value (omega arith) found,
                cut_shorter token_suffix rest (omega arith) closed,
              )))
      ]
    ]
  ]

-- The test in front of the loop only saves the work.
expand-loop :
    (value dir : Str) (files : List Str)
    → expand value dir files ≡ expand_loop (suc (length value)) value dir files []
unfolding expand
expand-loop value dir files = elim (Bool-cases (contains token_prefix value)) [
  | inl e ↦ rw e
  | inr e ↦
      rw e (sym (loop_end dir files (length value) value [] (contains-none token_prefix value e)))
]

-- `expand` succeeds with a text exactly when that is what the value stands for: every reference
-- replaced by the path of a written file.
pub expand_iff :
    (value dir : Str) (files : List Str) (w : Str)
    → (expand value dir files ≡ ok w) ↔ Expands dir files value w
expand_iff value dir files w = (
  λ e.
      let (w', same, x) =
        expand_loop_sound dir files (suc (length value)) value [] w
          (sym (expand-loop value dir files) ∙ e) in
      rw same x,
  λ x.
      expand-loop value dir files
      ∙ expand_loop_complete dir files (suc (length value)) [] x (omega arith),
)

-- The loop of `expand` ends on every text: the rounds that it is given are enough.
pub expand-ne-out_of_fuel :
    (value dir : Str) (files : List Str) → expand value dir files ≢ err out_of_fuel
expand-ne-out_of_fuel value dir files =
    rw (expand-loop value dir files)
      (expand_loop-ne-fuel dir files (suc (length value)) value [] (omega arith))
