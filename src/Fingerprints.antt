-- ===== src/Fingerprints.antt =====
-- patches/tls/reality_fingerprints.go: the TLS fingerprint that a configuration names. The profiles
-- themselves are values of package utls, which stand here by the names of their variables.
pub mod Tables
pub mod Lookup
pub mod Known
mod Examples
use android_lib_box_lite.Common.{
  ℕ, zero, suc, Bool, true, false, Option, none, some, List, [], ◌∷◌, Str, bytes, str_eq, has, ◌==◌,
  if◌then◌else◌,
}
use android_lib_box_lite.Fingerprints.Tables.{
  Profile, seeded_alpn, seeded_no_alpn, Table, lookup, assign, chrome, preset_fingerprints,
  modern_fingerprints, other_fingerprints,
}

-- The loop of `init` over the modern fingerprints, in the order in which Go walks the map.
pub choose : ℕ → ℕ → Table → Table → Table
choose i stop_at [] presets = presets
choose i stop_at ((key, value) ∷ order) presets =
    let rest = choose (suc i) stop_at order presets in
    if i == stop_at then assign (bytes "random") value presets else rest

-- `init`: the presets afterwards.
pub init : ℕ → Table → Table
init stop_at order =
    assign (bytes "randomizednoalpn") (some seeded_no_alpn)
      (assign (bytes "randomized") (some seeded_alpn) (choose 0 stop_at order preset_fingerprints))

abbrev pub aliases : List Str
aliases =
    bytes "chrome_psk"
    ∷ bytes "chrome_psk_shuffle"
    ∷ bytes "chrome_padding_psk_shuffle"
    ∷ bytes "chrome_pq"
    ∷ bytes "chrome_pq_psk"
    ∷ []

abbrev pub alias_of : Str → Str
alias_of name = if has aliases name then bytes "chrome" else name

-- The first table that has a value.
abbrev pub or_else : Option Profile → Option Profile → Option Profile
or_else (some p) next = some p
or_else none next = next

abbrev pub find : Table → Str → Option Profile
find presets name =
    or_else (lookup name presets)
      (or_else (lookup name modern_fingerprints) (lookup name other_fingerprints))

-- `androidLibBoxClientHelloID`, with strings.ToLower as `to_lower`; none for the error.
pub client_hello_id : (Str → Str) → Table → Str → Option Profile
client_hello_id to_lower presets name =
    let lower = to_lower name in
    if str_eq lower [] then some chrome else find presets (alias_of lower)
