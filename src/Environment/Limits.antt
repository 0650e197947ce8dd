-- ===== src/Environment/Limits.antt =====
-- `parseMemoryLimit` on well-formed limits and on any text.
use android_lib_box_lite.Common.{
  ℕ, ◌+◌, ◌-◌, ◌*◌, ◌^◌, ◌≤◌, ◌≡◌, refl, sym, subst, ap, ◌∙◌, true, Option, none, some, List, [],
  ◌∷◌, ◌++◌, leb, ltb, if◌then◌else◌, str_eq_iff, ◌↔◌, ◌≢◌, Str, bytes, cut_suffix, cut_prefix,
  cut_prefix-append, arith,
}
use android_lib_box_lite.Environment.{
  max_int64, units, cut_unit, scale, parse_memory_limit, Env, panic, bad_memory_limit, lookup_env,
  memory_limit_of, apply_runtime_limits,
}
use android_lib_box_lite.Common.Strconv.{
  ℤ, pos, negsuc, is_digit, digits_from, parse_digits, parse_int,
}
use mathlib.Core.List.{append-nil, reverse, reverse-append, reverse-reverse}

-- The units of GOMEMLIMIT as its documentation has them; `plain` is a number with no suffix.
pub data MemoryUnit : Type 0 where
  plain b kib mib gib tib : MemoryUnit

abbrev pub suffix : MemoryUnit → Str
suffix plain = []
suffix b = bytes "B"
suffix kib = bytes "KiB"
suffix mib = bytes "MiB"
suffix gib = bytes "GiB"
suffix tib = bytes "TiB"

abbrev pub size : MemoryUnit → ℕ
size plain = 1
size b = 1
size kib = 1024
size mib = 1024 ^ 2
size gib = 1024 ^ 3
size tib = 1024 ^ 4

-- A text that the digit loop accepts ends in a digit, unless it is empty.
digits_end :
    (acc n c : ℕ) (s : Str)
    → digits_from acc (c ∷ s) ≡ some n
    → (d : ℕ) × (front : Str) × (c ∷ s ≡ front ++ (d ∷ [])) × (is_digit d ≡ true)
unfolding digits_from
digits_end acc n c [] e = (c, [], refl, ground arith)
digits_end acc n c (c' ∷ s) e =
    let (d, front, same, digit) = digits_end (acc * 10 + (c - b'0')) n c' s (ground arith) in
    (d, c ∷ front, cc, digit)

-- What `cut_suffix` finds in terms of the reversed text.
cut_suffix_hit : (t u : Str) → cut_suffix (t ++ u) u ≡ some t
unfolding cut_suffix
cut_suffix_hit t u =
    rw (reverse-append t u)
      (rw (cut_prefix-append (reverse u) (reverse t)) (ap some (reverse-reverse t)))

cut_suffix_miss :
    (s t u : Str)
    → cut_prefix (reverse u) (reverse t ++ reverse s) ≡ none
    → cut_suffix (s ++ t) u ≡ none
unfolding cut_suffix
cut_suffix_miss s t u e = rw (reverse-append s t) (rw e)

cut_unit_hit :
    (value t u : Str) (k : ℕ) (rest : List (Str × ℕ))
    → cut_suffix value u ≡ some t
    → cut_unit ((u, k) ∷ rest) value ≡ (t, k)
unfolding cut_unit
cut_unit_hit value t u k rest e = rw (e, cut_unit)

cut_unit_miss :
    (value u : Str) (k : ℕ) (rest : List (Str × ℕ))
    → cut_suffix value u ≡ none
    → cut_unit ((u, k) ∷ rest) value ≡ cut_unit rest value
unfolding cut_unit
cut_unit_miss value u k rest e = rw (e, cut_unit)

module _ (front : Str) (c : ℕ) (digit : is_digit c ≡ true) where
  abbrev number : Str
  number = front ++ (c ∷ [])

  -- Where the last bytes differ, the loop goes on to the next unit.
  skip :
      (t u : Str) (k : ℕ) (rest : List (Str × ℕ))
      → cut_prefix (reverse u) (reverse t ++ (c ∷ reverse front)) ≡ none
      → cut_unit ((u, k) ∷ rest) (number ++ t) ≡ cut_unit rest (number ++ t)
  skip t u k rest e =
      cut_unit_miss (number ++ t) u k rest
        (cut_suffix_miss number t u (rw (reverse-append front (c ∷ [])) e))

  found :
      (t : Str) (k : ℕ) (rest : List (Str × ℕ))
      → cut_unit ((t, k) ∷ rest) (number ++ t) ≡ (number, k)
  found t k rest = cut_unit_hit (number ++ t) number t k rest (cut_suffix_hit number t)

  -- The loop over the units takes off the unit that was written, and no other.
  cut_unit-suffix : (u : MemoryUnit) → cut_unit units (number ++ suffix u) ≡ (number, size u)
  unfolding cut_prefix is_digit
  cut_unit-suffix plain =
      skip [] _ _ _ (ground arith)
      ∙ skip [] _ _ _ (ground arith)
      ∙ skip [] _ _ _ (ground arith)
      ∙ skip [] _ _ _ (ground arith)
      ∙ skip [] _ _ _ (ground arith)
      ∙ rw append-nil (unfold cut_unit in refl)
  cut_unit-suffix b =
      skip _ _ _ _ (ground arith)
      ∙ skip _ _ _ _ (ground arith)
      ∙ skip _ _ _ _ (ground arith)
      ∙ skip _ _ _ _ (ground arith)
      ∙ found _ _ _
  cut_unit-suffix kib = found _ _ _
  cut_unit-suffix mib = skip _ _ _ _ refl ∙ found _ _ _
  cut_unit-suffix gib = skip _ _ _ _ refl ∙ skip _ _ _ _ refl ∙ found _ _ _
  cut_unit-suffix tib = skip _ _ _ _ refl ∙ skip _ _ _ _ refl ∙ skip _ _ _ _ refl ∙ found _ _ _

cut_unit_text :
    (text front : Str) (c : ℕ) (u : MemoryUnit)
    → is_digit c ≡ true
    → text ≡ front ++ (c ∷ [])
    → cut_unit units (text ++ suffix u) ≡ (text, size u)
cut_unit_text text front c u digit same =
    subst (λ (t : Str). cut_unit units (t ++ suffix u) ≡ (t, size u)) (sym same)
      (cut_unit-suffix front c digit u)

-- A text of digits is read as the number that it writes, if an int64 holds it.
parse_int_digits :
    (d : Str) (n : ℕ)
    → parse_digits d ≡ some n
    → parse_int d 64 ≡ (if ltb n (2 ^ 63) then some (pos n) else none)
unfolding parse_int parse_digits digits_from is_digit
parse_int_digits [] n e = cc
parse_int_digits (c ∷ s) n e = ground arith

scale_exact :
    (n : ℕ) (u : MemoryUnit)
    → scale (if ltb n (2 ^ 63) then some (pos n) else none) (size u)
      ≡ (if leb (n * size u) max_int64 then some (n * size u) else none)
unfolding scale
scale_exact n plain = ground arith
scale_exact n b = ground arith
scale_exact n kib = ground arith
scale_exact n mib = ground arith
scale_exact n gib = ground arith
scale_exact n tib = ground arith

limit_of :
    (d : Str) (n : ℕ) (u : MemoryUnit)
    → cut_unit units (d ++ suffix u) ≡ (d, size u)
    → parse_digits d ≡ some n
    → parse_memory_limit (d ++ suffix u)
      ≡ (if leb (n * size u) max_int64 then some (n * size u) else none)
unfolding parse_memory_limit
limit_of d n u e h = rw e (rw (parse_int_digits d n h) (scale_exact n u))

-- A run of decimal digits followed by a unit (or none) is read as the number times the unit's bytes;
-- it is refused exactly when the product exceeds the largest int64.
pub parse_memory_limit_exact :
    (d : Str) (n : ℕ) (u : MemoryUnit)
    → parse_digits d ≡ some n
    → parse_memory_limit (d ++ suffix u)
      ≡ (if leb (n * size u) max_int64 then some (n * size u) else none)
parse_memory_limit_exact [] n u e = unfold parse_digits in cc
parse_memory_limit_exact (c ∷ s) n u e =
    let (d, front, same, digit) = digits_end 0 n c s (unfold parse_digits in e) in
    limit_of (c ∷ s) n u (cut_unit_text (c ∷ s) front d u digit same) e

scale_bounded : (o : Option ℤ) (m : ℕ) {n : ℕ} → scale o m ≡ some n → n ≤ max_int64
unfolding scale
scale_bounded none m e = cc
scale_bounded (some (negsuc k)) m e = cc
scale_bounded (some (pos k)) m e = grind (arith)

-- Whatever the text is, an accepted limit fits an int64.
pub parse_memory_limit_bounded :
    (value : Str) {n : ℕ} → parse_memory_limit value ≡ some n → n ≤ max_int64
unfolding parse_memory_limit
parse_memory_limit_bounded value e =
    scale_bounded (parse_int (cut_unit units value).0 64) (cut_unit units value).1 e

cause_panics :
    (env : Env) (value : Str)
    → lookup_env (bytes "GOMEMLIMIT") env ≡ some value
    → value ≢ []
    → value ≢ bytes "off"
    → parse_memory_limit value ≡ none
    → apply_runtime_limits env ≡ panic bad_memory_limit
unfolding apply_runtime_limits memory_limit_of
cause_panics env value set nonempty limited bad =
    ground (arith, str_eq_iff value [], str_eq_iff value (bytes "off"))

panic_cause :
    (env : Env) (o : Option Str)
    → lookup_env (bytes "GOMEMLIMIT") env ≡ o
    → apply_runtime_limits env ≡ panic bad_memory_limit
    → (value : Str) × (lookup_env (bytes "GOMEMLIMIT") env ≡ some value)
      × (value ≢ [])
      × (value ≢ bytes "off")
      × (parse_memory_limit value ≡ none)
unfolding apply_runtime_limits memory_limit_of
panic_cause env none set e = ground arith
panic_cause env (some value) set e = (
  value,
  set,
  ground (arith, str_eq_iff value []),
  ground (arith, str_eq_iff value (bytes "off")),
  ground (arith),
)

-- `applyRuntimeLimits` panics exactly when GOMEMLIMIT is present, is neither empty nor "off", and is not
-- a limit that `parseMemoryLimit` accepts.
pub apply_runtime_limits_panics :
    (env : Env)
    → (apply_runtime_limits env ≡ panic bad_memory_limit) ↔ (
        (value : Str) × (lookup_env (bytes "GOMEMLIMIT") env ≡ some value)
        × (value ≢ [])
        × (value ≢ bytes "off")
        × (parse_memory_limit value ≡ none))
apply_runtime_limits_panics env = (
  λ e. panic_cause env _ refl e,
  λ (value, set, nonempty, limited, bad). cause_panics env value set nonempty limited bad,
)
