-- ===== src/UrlTest/Wire/Reading.antt =====
-- The loop of the daemon over the unknown fields: it ends, and takes one field at a time.
use android_lib_box_lite.Common.{
  ℕ, zero, suc, ◌+◌, ◌^◌, ◌≤◌, ◌<◌, Bool, false, none, some, [], ◌∷◌, ◌++◌, Str, length, drop,
  drop-append, ◌≡◌, ◌≢◌, sym, ap, ◌∙◌, arith, Option-cases, inl, inr,
}
use native.Mathlib.Nat.{suc-add}
use android_lib_box_lite.UrlTest.Wire.{
  Protowire, IsProtowire, OptionsRequest, no_options, read_field, read_fields, options_from_request,
}

length-drop-le : (n : ℕ) (s : Str) → length (drop n s) ≤ length s
length-drop-le zero s = omega arith
length-drop-le (suc n) [] = omega arith
length-drop-le (suc n) (c ∷ s) = omega (arith, length-drop-le n s)

length-drop-lt : (n : ℕ) (s : Str) → 0 < n → 0 < length s → length (drop n s) < length s
length-drop-lt zero s h k = absurd (omega arith)
length-drop-lt (suc n) [] h k = absurd (omega arith)
length-drop-lt (suc n) (c ∷ s) h k = omega (arith, length-drop-le n s)

module _ (p : Protowire) (laws : IsProtowire p) where
  pub read_fields-ne-none :
      (fuel : ℕ) (unknown : Str) (options : OptionsRequest) (loaded : Bool)
      → length unknown ≤ fuel
      → read_fields p fuel unknown options loaded ≢ none
  unfolding read_fields
  read_fields-ne-none zero [] options loaded h = λ e. cc
  read_fields-ne-none zero (c ∷ unknown) options loaded h = absurd (omega arith)
  read_fields-ne-none (suc fuel) [] options loaded h = λ e. cc
  read_fields-ne-none (suc fuel) (c ∷ unknown) options loaded h =
      elim (Option-cases (p.consume_tag (c ∷ unknown))) [
        | inl e ↦ rw (e, read_fields) (λ x. cc)
        | inr ((number, type, n), e) ↦
            elim (Option-cases (read_field p number type (drop n (c ∷ unknown)) options loaded)) [
              | inl f ↦ rw (e, read_fields) (rw (f, read_fields) (λ x. cc))
              | inr ((options', loaded', m), f) ↦
                  rw (e, read_fields)
                    (rw (f, read_fields)
                      (read_fields-ne-none fuel (drop m (drop n (c ∷ unknown))) options' loaded' (
                        omega (
                          arith,
                          length-drop-le m (drop n (c ∷ unknown)),
                          length-drop-lt n (c ∷ unknown)
                              (laws.tag_length (c ∷ unknown) number type n e).0 (omega arith),
                        ))))
            ]
      ]

  read_fields_next :
      (fuel number type n m : ℕ) (unknown : Str) (options options' : OptionsRequest)
      (loaded loaded' : Bool)
      → p.consume_tag unknown ≡ some (number, type, n)
      → read_field p number type (drop n unknown) options loaded ≡ some (options', loaded', m)
      → read_fields p (suc fuel) unknown options loaded
        ≡ read_fields p fuel (drop m (drop n unknown)) options' loaded'
  unfolding read_fields
  read_fields_next fuel number type n m [] options options' loaded loaded' e f =
      absurd (omega (arith, laws.tag_length [] number type n e))
  read_fields_next fuel number type n m (c ∷ unknown) options options' loaded loaded' e f =
      rw (e, read_fields) (rw (f, read_fields))

  read_fields_refused :
      (fuel number type n : ℕ) (unknown : Str) (options : OptionsRequest) (loaded : Bool)
      → p.consume_tag unknown ≡ some (number, type, n)
      → read_field p number type (drop n unknown) options loaded ≡ none
      → read_fields p (suc fuel) unknown options loaded ≡ some (no_options, false)
  unfolding read_fields
  read_fields_refused fuel number type n [] options loaded e f =
      absurd (omega (arith, laws.tag_length [] number type n e))
  read_fields_refused fuel number type n (c ∷ unknown) options loaded e f =
      rw (e, read_fields) (rw (f, read_fields))

  -- One field at the front of what is left.
  pub step_field :
      (fuel number type : ℕ) (value rest : Str) (options options' : OptionsRequest)
      (loaded loaded' : Bool)
      → 0 < number
      → number < 2 ^ 29
      → type < 8
      → read_field p number type (value ++ rest) options loaded
        ≡ some (options', loaded', length value)
      → read_fields p (suc fuel) (p.append_tag [] number type ++ (value ++ rest)) options loaded
        ≡ read_fields p fuel rest options' loaded'
  step_field fuel number type value rest options options' loaded loaded' a b c e =
      let tag = p.append_tag [] number type in
      let behind = drop-append tag (value ++ rest) in
      read_fields_next fuel number type (length tag) (length value) (tag ++ (value ++ rest)) options
        options' loaded loaded' (laws.tag_read number type (value ++ rest) a b c) (rw behind e)
      ∙ ap (λ (u : Str). read_fields p fuel u options' loaded')
          (ap (drop (length value)) behind ∙ drop-append value rest)

  pub read_fields-more :
      (fuel more : ℕ) (unknown : Str) (options : OptionsRequest) (loaded : Bool)
      {r : OptionsRequest × Bool}
      → read_fields p fuel unknown options loaded ≡ some r
      → read_fields p (fuel + more) unknown options loaded ≡ some r
  unfolding read_fields
  read_fields-more fuel more [] options loaded e = e
  read_fields-more zero more (c ∷ unknown) options loaded e = cc
  read_fields-more (suc fuel) more (c ∷ unknown) options loaded {r} e =
      rw suc-add (elim (Option-cases (p.consume_tag (c ∷ unknown))) [
        | inl h ↦ rw (h, read_fields) (rw (h, read_fields) at e)
        | inr ((number, type, n), h) ↦
            elim (Option-cases (read_field p number type (drop n (c ∷ unknown)) options loaded)) [
              | inl f ↦ cc (
                e,
                read_fields_refused fuel number type n (c ∷ unknown) options loaded h f,
                read_fields_refused (fuel + more) number type n (c ∷ unknown) options loaded h f,
              )
              | inr ((options', loaded', m), f) ↦
                  read_fields_next (fuel + more) number type n m (c ∷ unknown) options options'
                    loaded loaded' h f
                  ∙ read_fields-more fuel more (drop m (drop n (c ∷ unknown))) options' loaded' (
                      sym (
                        read_fields_next fuel number type n m (c ∷ unknown) options options' loaded
                          loaded' h f)
                      ∙ e)
            ]
      ])

  -- The loop over the unknown fields of a request ends: a round per byte is enough, whatever the bytes are.
  pub options_from_request-ne-none : (unknown : Str) → options_from_request p unknown ≢ none
  unfolding options_from_request
  options_from_request-ne-none unknown =
      read_fields-ne-none (length unknown) unknown no_options false (omega arith)
