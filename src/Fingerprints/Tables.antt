-- ===== src/Fingerprints/Tables.antt =====
-- The tables of patches/tls/reality_fingerprints.go.
use android_lib_box_lite.Common.{
  Option, none, some, List, [], ◌∷◌, Str, bytes, str_eq, if◌then◌else◌,
}

-- A utls.ClientHelloID: a variable of utls, or a randomized one with a seed and the weights of `init`.
pub data Profile : Type 0 where
  utls : Str → Profile
  seeded_alpn seeded_no_alpn : Profile

-- A map whose values may be nil.
abbrev pub Table : Type 0
Table = List (Str × Option Profile)

-- The value of a name, and none if the name is missing or its value is nil.
unfoldable pub lookup : Str → Table → Option Profile
lookup name [] = none
lookup name ((key, value) ∷ table) = if str_eq key name then value else lookup name table

unfoldable pub assign : Str → Option Profile → Table → Table
assign name value [] = (name, value) ∷ []
assign name value ((key, old) ∷ table) =
    let rest = assign name value table in
    if str_eq key name then (name, value) ∷ table else (key, old) ∷ rest

abbrev pub chrome : Profile
chrome = utls (bytes "HelloChrome_Auto")

abbrev pub preset_fingerprints : Table
preset_fingerprints =
    (bytes "chrome", some (utls (bytes "HelloChrome_Auto")))
    ∷ (bytes "firefox", some (utls (bytes "HelloFirefox_Auto")))
    ∷ (bytes "safari", some (utls (bytes "HelloSafari_Auto")))
    ∷ (bytes "ios", some (utls (bytes "HelloIOS_Auto")))
    ∷ (bytes "android", some (utls (bytes "HelloAndroid_11_OkHttp")))
    ∷ (bytes "edge", some (utls (bytes "HelloEdge_Auto")))
    ∷ (bytes "360", some (utls (bytes "Hello360_Auto")))
    ∷ (bytes "qq", some (utls (bytes "HelloQQ_Auto")))
    ∷ (bytes "random", none)
    ∷ (bytes "randomized", none)
    ∷ (bytes "randomizednoalpn", none)
    ∷ (bytes "unsafe", none)
    ∷ []

abbrev pub modern_fingerprints : Table
modern_fingerprints =
    (bytes "hellofirefox_120", some (utls (bytes "HelloFirefox_120")))
    ∷ (bytes "hellofirefox_148", some (utls (bytes "HelloFirefox_148")))
    ∷ (bytes "hellochrome_120", some (utls (bytes "HelloChrome_120")))
    ∷ (bytes "hellochrome_131", some (utls (bytes "HelloChrome_131")))
    ∷ (bytes "hellochrome_133", some (utls (bytes "HelloChrome_133")))
    ∷ (bytes "helloios_13", some (utls (bytes "HelloIOS_13")))
    ∷ (bytes "helloios_14", some (utls (bytes "HelloIOS_14")))
    ∷ (bytes "helloedge_106", some (utls (bytes "HelloEdge_106")))
    ∷ (bytes "hellosafari_26_3", some (utls (bytes "HelloSafari_26_3")))
    ∷ (bytes "hello360_11_0", some (utls (bytes "Hello360_11_0")))
    ∷ (bytes "helloqq_11_1", some (utls (bytes "HelloQQ_11_1")))
    ∷ []

abbrev pub other_fingerprints : Table
other_fingerprints =
    (bytes "hellogolang", some (utls (bytes "HelloGolang")))
    ∷ (bytes "hellorandomized", some (utls (bytes "HelloRandomized")))
    ∷ (bytes "hellorandomizedalpn", some (utls (bytes "HelloRandomizedALPN")))
    ∷ (bytes "hellorandomizednoalpn", some (utls (bytes "HelloRandomizedNoALPN")))
    ∷ (bytes "hellofirefox_auto", some (utls (bytes "HelloFirefox_Auto")))
    ∷ (bytes "hellofirefox_55", some (utls (bytes "HelloFirefox_55")))
    ∷ (bytes "hellofirefox_56", some (utls (bytes "HelloFirefox_56")))
    ∷ (bytes "hellofirefox_63", some (utls (bytes "HelloFirefox_63")))
    ∷ (bytes "hellofirefox_65", some (utls (bytes "HelloFirefox_65")))
    ∷ (bytes "hellofirefox_99", some (utls (bytes "HelloFirefox_99")))
    ∷ (bytes "hellofirefox_102", some (utls (bytes "HelloFirefox_102")))
    ∷ (bytes "hellofirefox_105", some (utls (bytes "HelloFirefox_105")))
    ∷ (bytes "hellochrome_auto", some (utls (bytes "HelloChrome_Auto")))
    ∷ (bytes "hellochrome_58", some (utls (bytes "HelloChrome_58")))
    ∷ (bytes "hellochrome_62", some (utls (bytes "HelloChrome_62")))
    ∷ (bytes "hellochrome_70", some (utls (bytes "HelloChrome_70")))
    ∷ (bytes "hellochrome_72", some (utls (bytes "HelloChrome_72")))
    ∷ (bytes "hellochrome_83", some (utls (bytes "HelloChrome_83")))
    ∷ (bytes "hellochrome_87", some (utls (bytes "HelloChrome_87")))
    ∷ (bytes "hellochrome_96", some (utls (bytes "HelloChrome_96")))
    ∷ (bytes "hellochrome_100", some (utls (bytes "HelloChrome_100")))
    ∷ (bytes "hellochrome_102", some (utls (bytes "HelloChrome_102")))
    ∷ (bytes "hellochrome_106_shuffle", some (utls (bytes "HelloChrome_106_Shuffle")))
    ∷ (bytes "helloios_auto", some (utls (bytes "HelloIOS_Auto")))
    ∷ (bytes "helloios_11_1", some (utls (bytes "HelloIOS_11_1")))
    ∷ (bytes "helloios_12_1", some (utls (bytes "HelloIOS_12_1")))
    ∷ (bytes "helloandroid_11_okhttp", some (utls (bytes "HelloAndroid_11_OkHttp")))
    ∷ (bytes "helloedge_85", some (utls (bytes "HelloEdge_85")))
    ∷ (bytes "helloedge_auto", some (utls (bytes "HelloEdge_Auto")))
    ∷ (bytes "hellosafari_16_0", some (utls (bytes "HelloSafari_16_0")))
    ∷ (bytes "hellosafari_auto", some (utls (bytes "HelloSafari_Auto")))
    ∷ (bytes "hello360_auto", some (utls (bytes "Hello360_Auto")))
    ∷ (bytes "hello360_7_5", some (utls (bytes "Hello360_7_5")))
    ∷ (bytes "helloqq_auto", some (utls (bytes "HelloQQ_Auto")))
    ∷ (bytes "hellochrome_100_psk", some (utls (bytes "HelloChrome_100_PSK")))
    ∷ (bytes "hellochrome_112_psk_shuf", some (utls (bytes "HelloChrome_112_PSK_Shuf")))
    ∷ (
      bytes "hellochrome_114_padding_psk_shuf",
      some (utls (bytes "HelloChrome_114_Padding_PSK_Shuf")),
    )
    ∷ (bytes "hellochrome_115_pq", some (utls (bytes "HelloChrome_115_PQ")))
    ∷ (bytes "hellochrome_115_pq_psk", some (utls (bytes "HelloChrome_115_PQ_PSK")))
    ∷ (bytes "hellochrome_120_pq", some (utls (bytes "HelloChrome_120_PQ")))
    ∷ []
