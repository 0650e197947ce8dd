-- ===== src/PluginPool/LineWriter/Entries.antt =====
-- What `lineWriter` logs: bounds on an entry, and what becomes of a line that is too long.
use android_lib_box_lite.Common.{
  ℕ, ◌≤◌, ◌<◌, ◌≡◌, refl, sym, ap, subst, lt→ltb, take-length, length-take-eq, ◌∙◌, ◌≢◌, some, List,
  [], ◌∷◌, ◌++◌, Str, leb, ltb, ◌==◌, if◌then◌else◌, length, take, cut_suffix, arith, inl, inr,
  Option-cases, Bool-cases, All, All-append, length-append, append_assoc, append-nil,
  cut_suffix_sound, All-take, All-append_left, length-take-le, take-append_le,
}
use android_lib_box_lite.PluginPool.LineWriter.{
  LineWriter, max_line, newline, carriage_return, entry_of, logged, emit, append, write,
}
use android_lib_box_lite.PluginPool.LineWriter.Lines.{feed, settle, write-feed, feed-append}
use mathlib.Core.Option

abbrev pub IsOneLine : Str → Type 0
IsOneLine line = All (λ c. c ≢ newline) line

-- A log entry: some bytes, at most `maxLine` of them, and no newline.
abbrev pub IsEntry : Str → Type 0
IsEntry line = (0 < length line) × (length line ≤ max_line) × IsOneLine line

pub record IsTidy (w : LineWriter) : Type 0 where
  pub unfinished : IsOneLine w.buffer
  pub short : length w.buffer < max_line
  pub entries : All IsEntry w.log

trim : Str → Str
trim buffer = Option.get_or (cut_suffix buffer (carriage_return ∷ [])) buffer

trim-IsOneLine : (buffer : Str) → IsOneLine buffer → IsOneLine (trim buffer)
unfolding trim
trim-IsOneLine buffer h = elim (Option-cases (cut_suffix buffer (carriage_return ∷ []))) [
  | inl e ↦ rw e h
  | inr (t, e) ↦
      rw e (All-append_left _ t (carriage_return ∷ []) (rw (cut_suffix_sound buffer _ t e) at h))
]

entry_of-IsOneLine : (buffer : Str) → IsOneLine buffer → IsOneLine (entry_of buffer)
unfolding entry_of trim
entry_of-IsOneLine buffer h = elim (Bool-cases (ltb max_line (length (trim buffer)))) [
  | inl e ↦ rw e (All-take _ max_line (trim buffer) (trim-IsOneLine buffer h))
  | inr e ↦ rw e (trim-IsOneLine buffer h)
]

length-entry_of : (buffer : Str) → length (entry_of buffer) ≤ max_line
unfolding entry_of trim
length-entry_of buffer = elim (Bool-cases (ltb max_line (length (trim buffer)))) [
  | inl e ↦ rw e (length-take-le max_line (trim buffer))
  | inr e ↦ rw e (ground arith)
]

logged-IsEntry :
    (log : List Str) (line : Str)
    → All IsEntry log
    → IsOneLine line
    → length line ≤ max_line
    → All IsEntry (logged log line)
logged-IsEntry log [] h one short = h
logged-IsEntry log (c ∷ line) h one short = All-append _ log _ h ((omega arith, short, one), tt)

emit-IsTidy : (w : LineWriter) → IsOneLine w.buffer → All IsEntry w.log → IsTidy (emit w)
unfolding emit
emit-IsTidy w one h = record {
  unfinished = tt;
  short = omega arith;
  entries =
      logged-IsEntry w.log (entry_of w.buffer) h (entry_of-IsOneLine w.buffer one)
        (length-entry_of w.buffer);
}

feed-entries :
    (w : LineWriter) (p : Str)
    → IsOneLine w.buffer
    → All IsEntry w.log
    → IsOneLine (feed w p).buffer × All IsEntry (feed w p).log
unfolding feed
feed-entries w [] one h = (one, h)
feed-entries w (c ∷ p) one h = elim (Bool-cases (c == newline)) [
  | inl e ↦
      let t = emit-IsTidy w one h in rw (e, feed) (feed-entries (emit w) p t.unfinished t.entries)
  | inr e ↦
      rw (e, feed)
        (feed-entries (append w (c ∷ [])) p (All-append _ w.buffer _ one (ground arith, tt)) h)
]

-- A write keeps the writer tidy: every entry that it logs has 1 to 4096 bytes and no newline, and
-- what stays unfinished is shorter than 4096 bytes and has no newline.
pub write-IsTidy : (w : LineWriter) (p : Str) → IsTidy w → IsTidy (write w p).0
unfolding settle
write-IsTidy w p t =
    let (one, h) = feed-entries w p t.unfinished t.entries in
    rw (write-feed w p) (elim (Bool-cases (leb max_line (length (feed w p).buffer))) [
      | inl e ↦ rw e (emit-IsTidy (feed w p) one h)
      | inr e ↦ rw e (record { unfinished = one; short = ground arith; entries = h })
    ])

take_all : (t : Str) → length t ≡ max_line → take max_line t ≡ t
take_all t h = subst (λ (n : ℕ). take n t ≡ t) h (take-length t)

-- Trimming one byte off a long line does not show in its first `maxLine` bytes.
long_trimmed :
    (buffer t : Str)
    → max_line < length buffer
    → buffer ≡ t ++ (carriage_return ∷ [])
    → cut_suffix buffer (carriage_return ∷ []) ≡ some t
    → entry_of buffer ≡ take max_line buffer
unfolding entry_of
long_trimmed buffer t h same e =
    let enough : max_line ≤ length t =
      omega (arith, ap length same, length-append t (carriage_return ∷ [])) in
    let cut_short : (if ltb max_line (length t) then take max_line t else t) ≡ take max_line t =
      elim (Bool-cases (ltb max_line (length t))) [
        | inl l ↦ rw l
        | inr l ↦ rw l (sym (take_all t (ground arith)))
      ] in
    rw e (cut_short ∙ sym (ap (take max_line) same ∙ take-append_le max_line t _ enough))

entry_of_long : (buffer : Str) → max_line < length buffer → entry_of buffer ≡ take max_line buffer
unfolding entry_of
entry_of_long buffer h = elim (Option-cases (cut_suffix buffer (carriage_return ∷ []))) [
  | inl e ↦ rw (e, lt→ltb max_line (length buffer) h)
  | inr (t, e) ↦ long_trimmed buffer t h (cut_suffix_sound buffer _ t e) e
]

feed_one_line : (w : LineWriter) (p : Str) → IsOneLine p → feed w p ≡ append w p
unfolding feed
feed_one_line w [] h = ap (λ (b : Str). record w { buffer = b }) (sym (append-nil w.buffer))
feed_one_line w (c ∷ p) h =
    ground (arith, feed_one_line (append w (c ∷ [])) p h.1, append_assoc w.buffer (c ∷ []) p)

-- A write of one whole line, and a write of an unfinished line that is too long.
write_line :
    (w : LineWriter) (p : Str) → IsOneLine p → (write w (p ++ (newline ∷ []))).0 ≡ emit (append w p)
write_line w p h =
    rw (write-feed, feed-append, feed_one_line w p h) (unfold feed settle emit in refl)

write_too_long :
    (w : LineWriter) (p : Str)
    → IsOneLine p
    → max_line ≤ length (w.buffer ++ p)
    → (write w p).0 ≡ emit (append w p)
unfolding settle
write_too_long w p h long = rw (write-feed, feed_one_line w p h) (ground arith)

logged_some : (log : List Str) (line : Str) → 0 < length line → logged log line ≡ log ++ (line ∷ [])
logged_some log [] h = absurd (omega arith)
logged_some log (c ∷ line) h = refl

abbrev pub fresh : List Str → LineWriter
fresh log = record { buffer = []; log = log }

emit_long :
    (log : List Str) (p : Str)
    → max_line < length p
    → emit (append (fresh log) p) ≡ fresh (log ++ (take max_line p ∷ []))
unfolding emit
emit_long log p h = ap fresh (
    ap (logged log) (entry_of_long p h)
    ∙ logged_some log (take max_line p) (omega (arith, length-take-eq max_line p)))

-- The entries of an unfinished line: none, or one.
abbrev pub entries_of : Str → List Str
entries_of [] = []
entries_of (c ∷ line) = (c ∷ line) ∷ []

logged-entries_of : (log : List Str) (line : Str) → logged log line ≡ log ++ entries_of line
logged-entries_of log [] = sym (append-nil log)
logged-entries_of log (c ∷ line) = refl

emit_entries :
    (log : List Str) (p : Str)
    → emit (append (fresh log) p) ≡ fresh (log ++ entries_of (entry_of p))
unfolding emit
emit_entries log p = ap fresh (logged-entries_of log (entry_of p))

-- With an empty buffer, a line of more than `maxLine` bytes that one write brings whole is one entry of its
-- first `maxLine` bytes. Where a first write brings more than `maxLine` bytes of it and a second write its
-- end `r`, the first `maxLine` bytes are an entry, the rest of the first write is lost, and `r` gives an
-- entry of its own, unless it is empty or a lone carriage return.
pub write_long_line :
    (log : List Str) (line r : Str)
    → IsOneLine line
    → IsOneLine r
    → max_line < length line
    → ((write (fresh log) ((line ++ r) ++ (newline ∷ []))).0
        ≡ fresh (log ++ (take max_line line ∷ [])))
      × ((write (write (fresh log) line).0 (r ++ (newline ∷ []))).0
          ≡ fresh ((log ++ (take max_line line ∷ [])) ++ entries_of (entry_of r)))
write_long_line log line r one one' long = (
  write_line (fresh log) (line ++ r) (All-append _ line r one one')
      ∙ emit_long log (line ++ r) (omega (arith, length-append line r))
      ∙ ap (λ (t : Str). fresh (log ++ (t ∷ []))) (take-append_le max_line line r (omega arith)),
  ap (λ (w : LineWriter). (write w (r ++ (newline ∷ []))).0)
        (write_too_long (fresh log) line one (omega arith) ∙ emit_long log line long)
      ∙ write_line (fresh (log ++ (take max_line line ∷ []))) r one'
      ∙ emit_entries (log ++ (take max_line line ∷ [])) r,
)
