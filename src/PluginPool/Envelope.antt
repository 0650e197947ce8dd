-- ===== src/PluginPool/Envelope.antt =====
-- `Parse` of native/pluginpool/options.go and `ReadEnvelope` of native/pluginpool/pool.go. What
-- json.Unmarshal makes of a text and what os.ReadFile gives for a path are parameters.
pub mod Lookup
mod Examples
use android_lib_box_lite.Common.{
  ℕ, Bool, true, ◌&&◌, ◌||◌, Option, none, some, List, [], ◌∷◌, Str, bytes, leb, ◌==◌,
  if◌then◌else◌,
}
use android_lib_box_lite.PluginPool.Paths.{join, dir_of}
use android_lib_box_lite.PluginPool.Options.{Spec, Options, Result, ok, err, not_decoded, validate}

-- The white space of unicode.IsSpace in UTF-8: the bytes that the first such rune takes.
abbrev ascii_space : ℕ → Bool
ascii_space c = (leb 9 c && leb c 13) || c == 32

abbrev two_byte_space : ℕ → ℕ → Bool
two_byte_space a b = a == 0xc2 && (b == 0x85 || b == 0xa0)

abbrev three_byte_space : ℕ → ℕ → ℕ → Bool
three_byte_space a b c =
    (a == 0xe1 && b == 0x9a && c == 0x80)
    || (a == 0xe2
        && b == 0x80
        && ((leb 0x80 c && leb c 0x8a) || c == 0xa8 || c == 0xa9 || c == 0xaf))
    || (a == 0xe2 && b == 0x81 && c == 0x9f)
    || (a == 0xe3 && b == 0x80 && c == 0x80)

-- strings.TrimSpace(content) == ""
pub is_blank : Str → Bool
is_blank [] = true
is_blank (a ∷ []) = ascii_space a
is_blank (a ∷ (b ∷ [])) = (ascii_space a && ascii_space b) || two_byte_space a b
is_blank (a ∷ (b ∷ (c ∷ s))) =
    let one = is_blank (b ∷ (c ∷ s)) in
    let two = is_blank (c ∷ s) in
    let three = is_blank s in
    (ascii_space a && one) || (two_byte_space a b && two) || (three_byte_space a b c && three)

abbrev validated : Result Options → Result (Option Options)
validated (ok o) = ok (some o)
validated (err e) = err e

abbrev parse_plugins : Options → List Spec → Result (Option Options)
parse_plugins o [] = ok none
parse_plugins o (spec ∷ specs) = validated (validate o)

abbrev decoded : Option Options → Result (Option Options)
decoded none = err not_decoded
decoded (some o) = parse_plugins o o.plugins

-- `Parse`; the envelope of no plugins is `none`.
pub parse : (Str → Option Options) → Str → Result (Option Options)
parse decode content = if is_blank content then ok none else decoded (decode content)

-- What os.ReadFile gives: no such file, another error, or the content.
pub data Read : Type 0 where
  not_found unreadable : Read
  content : Str → Read

-- The results of `ReadEnvelope`: the error of os.ReadFile, or what `Parse` returns.
pub data Found : Type 0 where
  read_failed : Str → Found
  parsed : Result (Option Options) → Found

abbrev pub envelope_name : Str
envelope_name = bytes "plugin.json"

abbrev pub envelope_path : Str → Str
envelope_path path = join (dir_of path) envelope_name

module _ (decode : Str → Option Options) (read_file : Str → Read) where
  -- `ReadEnvelope`
  pub read_envelope : List Str → Found
  read_envelope [] = parsed (ok none)
  read_envelope (path ∷ paths) = elim (read_file (envelope_path path)) [
    | not_found ↦ read_envelope paths
    | unreadable ↦ read_failed (envelope_path path)
    | content text ↦ parsed (parse decode text)
  ]
