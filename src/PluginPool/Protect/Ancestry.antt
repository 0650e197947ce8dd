-- ===== src/PluginPool/Protect/Ancestry.antt =====
-- Whether a peer descends from the core.
use android_lib_box_lite.Common.{
  ℕ, zero, suc, ◌<◌, true, false, Option, none, some, List, [], ◌∷◌, ◌++◌, Str, bytes, str_eq, ◌≡◌,
  ◌≢◌, ◌↔◌, refl, ap, ◌∙◌, arith, Bool-cases, Option-cases, inl, inr, All, All-append, All-mono,
  append_assoc, append-nil, str_eq_iff,
}
use android_lib_box_lite.Common.Strconv.{ℤ, pos, negsuc, parse_int}
use android_lib_box_lite.PluginPool.Protect.{
  max_ancestry, same_pid, is_root_pid, after_last, is_space, fields_from, second_field, parse_stat,
  descends_within, descends,
}

-- `ancestor` is `n` generations above `pid`; the walk does not go past process 1.
pub data Ancestor (parent : ℤ → Option ℤ) (ancestor : ℤ) : ℕ → ℤ → Type 0 where
  self : {pid : ℤ} → pid ≡ ancestor → Ancestor parent ancestor zero pid
  above :
      {n : ℕ} {pid : ℤ} (pid' : ℤ)
      → is_root_pid pid ≡ false
      → parent pid ≡ some pid'
      → Ancestor parent ancestor n pid'
      → Ancestor parent ancestor (suc n) pid

same_pid_iff : (p q : ℤ) → (same_pid p q ≡ true) ↔ (p ≡ q)
same_pid_iff (pos m) (pos n) = ground arith
same_pid_iff (pos m) (negsuc n) = ground arith
same_pid_iff (negsuc m) (pos n) = ground arith
same_pid_iff (negsuc m) (negsuc n) = ground arith

module _ (parent : ℤ → Option ℤ) (ancestor : ℤ) where
  descends_sound :
      (rounds : ℕ) (pid : ℤ)
      → descends_within parent rounds pid ancestor ≡ true
      → (n : ℕ) × (n < rounds) × Ancestor parent ancestor n pid
  unfolding descends_within
  descends_sound zero pid e = absurd (cc e)
  descends_sound (suc rounds) pid e = elim (Bool-cases (same_pid pid ancestor)) [
    | inl s ↦ (0, omega arith, self ((same_pid_iff pid ancestor).0 s))
    | inr s ↦ elim (Option-cases (parent pid)) [
      | inl n ↦ absurd (ground arith)
      | inr (pid', n) ↦
          let walks : descends_within parent rounds pid' ancestor ≡ true = ground arith in
          let (k, below, a) = descends_sound rounds pid' walks in
          (suc k, omega arith, above pid' (ground arith) n a)
    ]
  ]

  descends_complete :
      (rounds : ℕ) {n : ℕ} {pid : ℤ}
      → Ancestor parent ancestor n pid
      → n < rounds
      → descends_within parent rounds pid ancestor ≡ true
  unfolding descends_within
  descends_complete zero a h = absurd (omega arith)
  descends_complete (suc rounds) {pid = pid} (self e) h = ground (arith, same_pid_iff pid ancestor)
  descends_complete (suc rounds) (above pid' r p a) h =
      ground (arith, descends_complete rounds a (omega arith))

-- The walk finds an ancestor exactly when it is the process itself or among its first 31 ancestors, not
-- going past process 1.
pub descends_iff :
    (parent : ℤ → Option ℤ) (pid ancestor : ℤ)
    → (descends parent pid ancestor ≡ true)
      ↔ ((n : ℕ) × (n < max_ancestry) × Ancestor parent ancestor n pid)
unfolding descends
descends_iff parent pid ancestor = (
  descends_sound parent ancestor max_ancestry pid,
  λ (n, h, a). descends_complete parent ancestor max_ancestry a h,
)

after_last_absent : (c : ℕ) (s : Str) → All (λ d. d ≢ c) s → after_last c s ≡ none
unfolding after_last
after_last_absent c [] h = refl
after_last_absent c (d ∷ s) h = ground (arith, after_last_absent c s h.1, h.0)

after_last-append :
    (c : ℕ) (front s : Str) → All (λ d. d ≢ c) s → after_last c (front ++ (c ∷ s)) ≡ some s
unfolding after_last
after_last-append c [] s h = ground (arith, after_last_absent c s h)
after_last-append c (d ∷ front) s h = ground (arith, after_last-append c front s h)

abbrev pub IsField : Str → Type 0
IsField word = (word ≢ []) × All (λ c. (is_space c ≡ false) × (c ≢ b')')) word

fields_word :
    (before word rest : Str)
    → All (λ c. (is_space c ≡ false) × (c ≢ b')')) word
    → fields_from before (word ++ rest) ≡ fields_from (before ++ word) rest
unfolding fields_from
fields_word before [] rest h = rw append-nil
fields_word before (c ∷ word) rest h = rw (h.0.0) (
    fields_word (before ++ (c ∷ [])) word rest h.1
    ∙ ap (λ (b : Str). fields_from b rest) (append_assoc before (c ∷ []) word))

fields_cons :
    (word rest : Str) → IsField word → fields_from word (b' ' ∷ rest) ≡ word ∷ fields_from [] rest
unfolding fields_from
fields_cons word rest h = ground (arith, str_eq_iff word [], h.0)

-- What stands behind the command's name.
abbrev stat_tail : Str → Str → Str → Str
stat_tail state parent rest = b' ' ∷ (state ++ (b' ' ∷ (parent ++ (b' ' ∷ rest))))

no_parenthesis : (word : Str) → IsField word → All (λ c. c ≢ b')') word
no_parenthesis word h = All-mono word (λ c k. k.1) h.1

stat_tail_fields :
    (state parent rest : Str)
    → IsField state
    → IsField parent
    → second_field (fields_from [] (stat_tail state parent rest)) ≡ some parent
stat_tail_fields state parent rest hs hp =
    let a : fields_from [] (stat_tail state parent rest)
        ≡ fields_from [] (state ++ (b' ' ∷ (parent ++ (b' ' ∷ rest)))) =
      unfold fields_from str_eq in refl in
    let b = fields_word [] state (b' ' ∷ (parent ++ (b' ' ∷ rest))) hs.1 in
    let c = fields_cons state (parent ++ (b' ' ∷ rest)) hs in
    let d = fields_word [] parent (b' ' ∷ rest) hp.1 in
    let e = fields_cons parent rest hp in
    ap second_field (a ∙ b ∙ c ∙ ap (λ (l : List Str). state ∷ l) (d ∙ e))

-- The parent is read from the second field behind the last ')', whatever the command's name holds:
-- spaces and parentheses too.
pub parse_stat_lem :
    (pid comm state parent rest : Str)
    → IsField state
    → IsField parent
    → All (λ c. c ≢ b')') rest
    → parse_stat (
        pid
        ++ (bytes " (" ++ (comm ++ (bytes ") " ++ (state ++ (b' ' ∷ (parent ++ (b' ' ∷ rest))))))))
      ≡ parse_int parent 64
unfolding parse_stat
parse_stat_lem pid comm state parent rest hs hp hr =
    let front = pid ++ (bytes " (" ++ comm) in
    let tail = stat_tail state parent rest in
    let clean : All (λ c. c ≢ b')') tail = (
      (λ x. absurd (omega arith)),
      All-append _ state _ (no_parenthesis state hs) (
        (λ x. absurd (omega arith)),
        All-append _ parent _ (no_parenthesis parent hp) ((λ x. absurd (omega arith)), hr),
      ),
    ) in
    let same = append_assoc pid (bytes " (" ++ comm) (b')' ∷ tail) in
    rw (← same)
      (rw (after_last-append b')' front tail clean) (rw (stat_tail_fields state parent rest hs hp)))
