-- ===== src/UrlTest/Wire.antt =====
-- The options of a URL test as unknown fields of the request. Package protowire is not part of the
-- repository: it is a parameter, with its documented laws.
pub mod Reading
pub mod RoundTrip
mod Examples
use Prim.Native.Nat.{bit_or}
use android_lib_box_lite.Common.{
  ℕ, zero, suc, ◌+◌, ◌-◌, ◌%◌, ◌^◌, ◌≤◌, ◌<◌, min, Bool, true, false, Option, none, some, [], ◌∷◌,
  ◌++◌, Str, ◌==◌, if◌then◌else◌, length, drop, ◌≡◌,
}
use android_lib_box_lite.Common.Strconv.{ℤ, pos, negsuc}

-- protowire.BytesType and protowire.VarintType
abbrev pub bytes_type : ℕ
bytes_type = 2

abbrev pub varint_type : ℕ
varint_type = 0

-- Lengths are those of the consumed bytes; `none` is a negative length.
pub record Protowire : Type 0 where
  pub append_tag : Str → ℕ → ℕ → Str
  pub append_varint : Str → ℕ → Str
  pub append_string : Str → Str → Str
  pub consume_tag : Str → Option (ℕ × ℕ × ℕ)
  pub consume_varint : Str → Option (ℕ × ℕ)
  pub consume_string : Str → Option (Str × ℕ)
  pub consume_field_value : ℕ → ℕ → Str → Option ℕ

-- What the package documents: an append function appends, a consume function reads back what was
-- appended and says how long it was, and a tag takes at least one byte.
pub record IsProtowire (p : Protowire) : Type 0 where
  pub tag_appended :
      (b : Str) (number type : ℕ) → p.append_tag b number type ≡ b ++ p.append_tag [] number type
  pub varint_appended : (b : Str) (v : ℕ) → p.append_varint b v ≡ b ++ p.append_varint [] v
  pub string_appended : (b s : Str) → p.append_string b s ≡ b ++ p.append_string [] s
  pub tag_read :
      (number type : ℕ) (rest : Str)
      → 0 < number
      → number < 2 ^ 29
      → type < 8
      → p.consume_tag (p.append_tag [] number type ++ rest)
        ≡ some (number, type, length (p.append_tag [] number type))
  pub varint_read :
      (v : ℕ) (rest : Str)
      → v < 2 ^ 64
      → p.consume_varint (p.append_varint [] v ++ rest) ≡ some (v, length (p.append_varint [] v))
  pub string_read :
      (s rest : Str)
      → p.consume_string (p.append_string [] s ++ rest) ≡ some (s, length (p.append_string [] s))
  pub tag_length :
      (b : Str) (number type n : ℕ)
      → p.consume_tag b ≡ some (number, type, n)
      → (0 < n) × (n ≤ length b)

abbrev pub field_link : ℕ
field_link = 1000

abbrev pub field_timeout : ℕ
field_timeout = 1001

abbrev pub field_flags : ℕ
field_flags = 1002

abbrev pub max_int32 : ℕ
max_int32 = 2 ^ 31 - 1

-- The bits of URLTestFlags.
abbrev pub unified_delay : ℕ
unified_delay = 1

abbrev pub ignore_handshake_time : ℕ
ignore_handshake_time = 2

-- `urlTestOptionsRequest`; the decoded timeout is never negative.
pub record OptionsRequest : Type 0 where
  pub link : Str
  pub timeout_ms : ℕ
  pub flags : ℕ

abbrev pub no_options : OptionsRequest
no_options = record { link = []; timeout_ms = 0; flags = 0 }

-- `CommandClient.URLTestWithOptions`: the flags of the request.
unfoldable pub flags_of : Bool → Bool → ℕ
flags_of unified ignore =
    let flags = if unified then bit_or 0 unified_delay else 0 in
    if ignore then bit_or flags ignore_handshake_time else flags

module _ (p : Protowire) where
  append_link : Str → Str → Str
  append_link [] unknown = unknown
  append_link (c ∷ link) unknown =
      p.append_string (p.append_tag unknown field_link bytes_type) (c ∷ link)

  append_timeout : ℤ → Str → Str
  append_timeout (negsuc n) unknown = unknown
  append_timeout (pos zero) unknown = unknown
  append_timeout (pos (suc n)) unknown =
      p.append_varint (p.append_tag unknown field_timeout varint_type) (suc n)

  -- `AppendURLTestOptions`: the unknown fields of the request.
  pub append_options : Str → ℤ → ℕ → Str
  unfolding append_link append_timeout
  append_options link timeout_ms flags =
      p.append_varint
        (p.append_tag (append_timeout timeout_ms (append_link link [])) field_flags varint_type)
        flags

  -- What one field does to the options; `none` refuses the request.
  pub read_link : ℕ → Str → OptionsRequest → Option (OptionsRequest × Bool × ℕ)
  read_link type unknown options =
      if type == bytes_type
      then elim (p.consume_string unknown) [
        | none ↦ none
        | some (link, n) ↦ some (record options { link = link }, true, n)
      ]
      else none

  pub read_timeout : ℕ → Str → OptionsRequest → Option (OptionsRequest × Bool × ℕ)
  read_timeout type unknown options =
      if type == varint_type
      then elim (p.consume_varint unknown) [
        | none ↦ none
        | some (value, n) ↦ some (record options { timeout_ms = min value max_int32 }, true, n)
      ]
      else none

  pub read_flags : ℕ → Str → OptionsRequest → Option (OptionsRequest × Bool × ℕ)
  read_flags type unknown options =
      if type == varint_type
      then elim (p.consume_varint unknown) [
        | none ↦ none
        | some (value, n) ↦ some (record options { flags = value % 2 ^ 8 }, true, n)
      ]
      else none

  pub read_other : ℕ → ℕ → Str → OptionsRequest → Bool → Option (OptionsRequest × Bool × ℕ)
  read_other number type unknown options loaded = elim (p.consume_field_value number type unknown) [
    | none ↦ none
    | some n ↦ some (options, loaded, n)
  ]

  -- The switch over the field's number.
  pub read_field : ℕ → ℕ → Str → OptionsRequest → Bool → Option (OptionsRequest × Bool × ℕ)
  read_field number type unknown options loaded =
      if number == field_link
      then read_link type unknown options
      else if number == field_timeout
      then read_timeout type unknown options
      else if number == field_flags
      then read_flags type unknown options
      else read_other number type unknown options loaded

  -- The loop of `urlTestOptionsFromRequest`, on fuel; `none` says that the fuel ran out.
  pub read_fields : ℕ → Str → OptionsRequest → Bool → Option (OptionsRequest × Bool)
  read_fields fuel [] options loaded = some (options, loaded)
  read_fields zero (c ∷ unknown) options loaded = none
  read_fields (suc fuel) (c ∷ unknown) options loaded = elim (p.consume_tag (c ∷ unknown)) [
    | none ↦ some (no_options, false)
    | some (number, type, n) ↦ elim (read_field number type (drop n (c ∷ unknown)) options loaded) [
      | none ↦ some (no_options, false)
      | some (options', loaded', m) ↦
          read_fields fuel (drop m (drop n (c ∷ unknown))) options' loaded'
    ]
  ]

  -- `urlTestOptionsFromRequest` of the unknown fields. Each round takes a byte at least.
  pub options_from_request : Str → Option (OptionsRequest × Bool)
  options_from_request unknown = read_fields (length unknown) unknown no_options false
