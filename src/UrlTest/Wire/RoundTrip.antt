-- ===== src/UrlTest/Wire/RoundTrip.antt =====
-- The daemon reads what the client attached.
use android_lib_box_lite.Common.{
  ℕ, zero, suc, ◌%◌, ◌^◌, ◌≤◌, ◌<◌, min, Bool, true, false, some, [], ◌∷◌, ◌++◌, Str, length, ◌≡◌,
  refl, sym, ap, ◌∙◌, arith, append_assoc, append-nil, Option-cases, inl, inr,
}
use native.Mathlib.Nat.{add_comm}
use android_lib_box_lite.Common.Strconv.{ℤ, pos, negsuc}
use android_lib_box_lite.UrlTest.Wire.{
  Protowire, IsProtowire, bytes_type, varint_type, field_link, field_timeout, field_flags,
  max_int32, OptionsRequest, no_options, append_link, append_timeout, append_options, read_link,
  read_timeout, read_flags, read_field, read_fields, options_from_request,
}
use android_lib_box_lite.UrlTest.Wire.Reading.{
  step_field, read_fields-more, options_from_request-ne-none,
}

abbrev pub positive_part : ℤ → ℕ
positive_part (pos n) = n
positive_part (negsuc n) = 0

module _ (p : Protowire) (laws : IsProtowire p) where
  with_flags :
      (fuel flags : ℕ) (options : OptionsRequest) (loaded : Bool)
      → flags < 2 ^ 8
      → read_fields p
          (suc fuel)
          (p.append_tag [] field_flags varint_type ++ (p.append_varint [] flags ++ []))
          options
          loaded
        ≡ some (record options { flags = flags }, true)
  unfolding read_field read_flags
  with_flags fuel flags options loaded h =
      let read = laws.varint_read flags [] (omega arith) in
      let same : flags % 2 ^ 8 ≡ flags = omega arith in
      step_field p laws fuel field_flags varint_type (p.append_varint [] flags) [] options
        (record options { flags = flags }) loaded true (omega arith) (omega arith) (omega arith)
        (rw (read, read_flags) (rw same))
      ∙ unfold read_fields in refl

  abbrev flags_part : ℕ → Str
  flags_part flags = p.append_tag [] field_flags varint_type ++ (p.append_varint [] flags ++ [])

  with_timeout :
      (fuel flags : ℕ) (timeout : ℤ) (link : Str) (loaded : Bool)
      → flags < 2 ^ 8
      → positive_part timeout ≤ max_int32
      → read_fields p
          (suc (suc fuel))
          (append_timeout p timeout [] ++ flags_part flags)
          (record { link = link; timeout_ms = 0; flags = 0 })
          loaded
        ≡ some (record { link = link; timeout_ms = positive_part timeout; flags = flags }, true)
  unfolding append_timeout read_field read_timeout
  with_timeout fuel flags (negsuc n) link loaded h k = with_flags (suc fuel) flags _ loaded h
  with_timeout fuel flags (pos zero) link loaded h k = with_flags (suc fuel) flags _ loaded h
  with_timeout fuel flags (pos (suc n)) link loaded h k =
      let value = p.append_varint [] (suc n) in
      let tag = p.append_tag [] field_timeout varint_type in
      let read = laws.varint_read (suc n) (flags_part flags) (omega arith) in
      let same : min (suc n) max_int32 ≡ suc n = ground arith in
      rw (laws.varint_appended tag (suc n)) (
        rw (append_assoc tag value (flags_part flags)) (
          step_field p laws (suc fuel) field_timeout varint_type value (flags_part flags)
            (record { link = link; timeout_ms = 0; flags = 0 })
            (record { link = link; timeout_ms = suc n; flags = 0 }) loaded true (omega arith)
            (omega arith) (omega arith) (rw (read, read_timeout) (rw same))
          ∙ with_flags fuel flags _ true h))

  with_link :
      (flags : ℕ) (timeout : ℤ) (link : Str)
      → flags < 2 ^ 8
      → positive_part timeout ≤ max_int32
      → read_fields p 3
          (append_link p link [] ++ (append_timeout p timeout [] ++ flags_part flags))
          no_options
          false
        ≡ some (record { link = link; timeout_ms = positive_part timeout; flags = flags }, true)
  unfolding append_link read_field read_link
  with_link flags timeout [] h k = with_timeout 1 flags timeout [] false h k
  with_link flags timeout (c ∷ link) h k =
      let value = p.append_string [] (c ∷ link) in
      let tag = p.append_tag [] field_link bytes_type in
      let rest = append_timeout p timeout [] ++ flags_part flags in
      let read = laws.string_read (c ∷ link) rest in
      rw (laws.string_appended tag (c ∷ link)) (
        rw (append_assoc tag value rest) (
          step_field p laws 2 field_link bytes_type value rest no_options
            (record { link = c ∷ link; timeout_ms = 0; flags = 0 }) false true (omega arith)
            (omega arith) (omega arith) (rw (read, read_link))
          ∙ with_timeout 0 flags timeout (c ∷ link) true h k))

  append_timeout_appended :
      (timeout : ℤ) (b : Str) → append_timeout p timeout b ≡ b ++ append_timeout p timeout []
  unfolding append_timeout
  append_timeout_appended (negsuc n) b = sym (append-nil b)
  append_timeout_appended (pos zero) b = sym (append-nil b)
  append_timeout_appended (pos (suc n)) b =
      let value = p.append_varint [] (suc n) in
      let tag = p.append_tag [] field_timeout varint_type in
      laws.varint_appended (p.append_tag b field_timeout varint_type) (suc n)
      ∙ ap (λ (u : Str). u ++ value) (laws.tag_appended b field_timeout varint_type)
      ∙ append_assoc b tag value
      ∙ ap (λ (u : Str). b ++ u) (sym (laws.varint_appended tag (suc n)))

  append_options_parts :
      (link : Str) (timeout : ℤ) (flags : ℕ)
      → append_options p link timeout flags
        ≡ append_link p link [] ++ (append_timeout p timeout [] ++ flags_part flags)
  unfolding append_options
  append_options_parts link timeout flags =
      let first = append_link p link [] in
      let second = append_timeout p timeout [] in
      let tag = p.append_tag [] field_flags varint_type in
      let value = p.append_varint [] flags in
      laws.varint_appended (p.append_tag (append_timeout p timeout first) field_flags varint_type)
        flags
      ∙ ap (λ (u : Str). u ++ value)
          (laws.tag_appended (append_timeout p timeout first) field_flags varint_type)
      ∙ ap (λ (u : Str). (u ++ tag) ++ value) (append_timeout_appended timeout first)
      ∙ append_assoc (first ++ second) tag value
      ∙ append_assoc first second (tag ++ value)
      ∙ ap (λ (u : Str). first ++ (second ++ (tag ++ u))) (sym (append-nil value))

  -- What a client attaches the daemon reads back: for flags of a byte and a timeout that an int32
  -- can hold the decoded options are the link, the timeout (zero when it is not positive, which is
  -- not sent) and the flags, and the request is known to carry options.
  pub options_from_request-append_options :
      (link : Str) (timeout : ℤ) (flags : ℕ)
      → flags < 2 ^ 8
      → positive_part timeout ≤ max_int32
      → options_from_request p (append_options p link timeout flags)
        ≡ some (record { link = link; timeout_ms = positive_part timeout; flags = flags }, true)
  unfolding options_from_request
  options_from_request-append_options link timeout flags h k =
      let unknown = append_options p link timeout flags in
      let enough : read_fields p 3 unknown no_options false
          ≡ some (record { link = link; timeout_ms = positive_part timeout; flags = flags }, true) =
        rw (append_options_parts link timeout flags) (with_link flags timeout link h k) in
      let more = read_fields-more p laws 3 (length unknown) unknown no_options false enough in
      elim (Option-cases (read_fields p (length unknown) unknown no_options false)) [
        | inl e ↦
            absurd (options_from_request-ne-none p laws unknown (unfold options_from_request in e))
        | inr (r, e) ↦
            let same = read_fields-more p laws (length unknown) 3 unknown no_options false e in
            e
            ∙ sym same
            ∙ ap (λ (n : ℕ). read_fields p n unknown no_options false) (add_comm (length unknown) 3)
            ∙ more
      ]
