-- ===== src/PluginPool/Envelope/Lookup.antt =====
-- Which file decides, and what an accepted content is.
use android_lib_box_lite.Common.{
  false, Option, none, some, List, [], ◌∷◌, ◌++◌, Str, ◌≡◌, ◌≢◌, ◌↔◌, refl, ap, All, Bool-cases,
  Option-cases, inl, inr,
}
use android_lib_box_lite.PluginPool.Options.{Spec, Options, Result, ok, err, validate}
use android_lib_box_lite.PluginPool.Options.Names.{IsValid, named}
use android_lib_box_lite.PluginPool.Options.Validation.{validate_iff}
use android_lib_box_lite.PluginPool.Envelope.{
  is_blank, validated, parse_plugins, parse, Read, not_found, unreadable, content, Found,
  read_failed, parsed, envelope_path,
}

-- What `Parse` accepts as plugins: a text that is not blank and that decodes to an envelope with a
-- plugin, which is valid once its plugins are named.
pub record Describes (decode : Str → Option Options) (text : Str) (o' : Options) : Type 0 where
  pub envelope : Options
  pub not_blank : is_blank text ≡ false
  pub decodes : decode text ≡ some envelope
  pub has_plugin : envelope.plugins ≢ []
  pub completed : o' ≡ record envelope { plugins = named 0 envelope.plugins }
  pub valid : IsValid o'

decoded_sound :
    (o : Options) (specs : List Spec) {o' : Options}
    → parse_plugins o specs ≡ ok (some o')
    → (specs ≢ []) × (validate o ≡ ok o')
decoded_sound o [] e = cc
decoded_sound o (spec ∷ specs) {o'} e = ((λ k. cc), validated_sound (validate o) e)
  where
    validated_sound : (r : Result Options) → validated r ≡ ok (some o') → r ≡ ok o'
    validated_sound (ok x) f = cc
    validated_sound (err x) f = cc

decoded_complete :
    (o : Options) (specs : List Spec) {o' : Options}
    → specs ≢ []
    → validate o ≡ ok o'
    → parse_plugins o specs ≡ ok (some o')
decoded_complete o [] n e = absurd (n refl)
decoded_complete o (spec ∷ specs) n e = ap validated e

-- `Parse` returns an envelope exactly when the content is not blank and decodes to an envelope with a
-- plugin, which is valid once its plugins are named; the result is that envelope.
pub parse_iff :
    (decode : Str → Option Options) (text : Str) (o' : Options)
    → (parse decode text ≡ ok (some o')) ↔ Describes decode text o'
unfolding parse
parse_iff decode text o' = (
  λ e. elim (Bool-cases (is_blank text)) [
    | inl b ↦ cc (rw b at e)
    | inr b ↦ elim (Option-cases (decode text)) [
      | inl d ↦ cc (rw (b, d) at e)
      | inr (o, d) ↦
          let (some_plugin, accepted) = decoded_sound o o.plugins (rw (b, d) at e) in
          let (same, v) = (validate_iff o o').0 accepted in
          record {
            envelope = o;
            not_blank = b;
            decodes = d;
            has_plugin = some_plugin;
            completed = same;
            valid = v;
          }
    ]
  ],
  λ d.
      rw (d.not_blank, d.decodes)
        (decoded_complete d.envelope d.envelope.plugins d.has_plugin
          ((validate_iff d.envelope o').1 (d.completed, d.valid))),
)

-- The search stops at the first configuration file with an envelope beside it: those before it have
-- none, and its content alone decides; without one there are no plugins.
pub data Decides (decode : Str → Option Options) (read_file : Str → Read) (paths : List Str)
    : Found → Type 0 where
  nowhere :
      All (λ path. read_file (envelope_path path) ≡ not_found) paths
      → Decides decode read_file paths (parsed (ok none))
  here :
      (before : List Str) (path : Str) (after : List Str) (text : Str)
      → paths ≡ before ++ (path ∷ after)
      → All (λ path. read_file (envelope_path path) ≡ not_found) before
      → read_file (envelope_path path) ≡ content text
      → Decides decode read_file paths (parsed (parse decode text))
  failed :
      (before : List Str) (path : Str) (after : List Str)
      → paths ≡ before ++ (path ∷ after)
      → All (λ path. read_file (envelope_path path) ≡ not_found) before
      → read_file (envelope_path path) ≡ unreadable
      → Decides decode read_file paths (read_failed (envelope_path path))
