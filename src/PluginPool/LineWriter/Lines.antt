-- ===== src/PluginPool/LineWriter/Lines.antt =====
-- `Write` against a description that takes the output byte by byte.
use android_lib_box_lite.Common.{
  ℕ, zero, suc, ◌≤◌, ◌<◌, ◌≡◌, refl, sym, ap, ◌∙◌, none, some, [], ◌∷◌, ◌++◌, Str, leb, ◌==◌,
  if◌then◌else◌, length, arith, inl, inr, Option-cases, Bool-cases, append_assoc, append-nil,
}
use android_lib_box_lite.PluginPool.LineWriter.{
  LineWriter, max_line, newline, emit, split_line, append, keep_rest, write_loop, write,
}

-- One byte: a newline ends the line that is kept, any other byte joins it.
abbrev pub feed_byte : LineWriter → ℕ → LineWriter
feed_byte w c = if c == newline then emit w else append w (c ∷ [])

unfoldable pub feed : LineWriter → Str → LineWriter
feed w [] = w
feed w (c ∷ p) = feed (feed_byte w c) p

-- A line that has grown too long is logged before its end has come.
unfoldable pub settle : LineWriter → LineWriter
settle w = if leb max_line (length w.buffer) then emit w else w

pub feed-append : (w : LineWriter) (p q : Str) → feed w (p ++ q) ≡ feed (feed w p) q
unfolding feed
feed-append w [] q = refl
feed-append w (c ∷ p) q = feed-append (feed_byte w c) p q

append-append : (w : LineWriter) (p q : Str) → append (append w p) q ≡ append w (p ++ q)
append-append w p q = ap (λ (b : Str). record w { buffer = b }) (append_assoc w.buffer p q)

append_nothing : (w : LineWriter) → append w [] ≡ w
append_nothing w = ap (λ (b : Str). record w { buffer = b }) (append-nil w.buffer)

split_none : (w : LineWriter) (p : Str) → split_line p ≡ none → feed w p ≡ append w p
unfolding feed split_line
split_none w [] e = sym (append_nothing w)
split_none w (c ∷ p) e =
    ground (arith, split_none (append w (c ∷ [])) p, append-append w (c ∷ []) p)

split_some :
    (w : LineWriter) (p line rest : Str)
    → split_line p ≡ some (line, rest)
    → (feed w p ≡ feed (emit (append w line)) rest) × (length rest < length p)
unfolding feed split_line
split_some w [] line rest e = cc
split_some w (c ∷ p) line rest e = elim (Bool-cases (c == newline)) [
  | inl nl ↦ ground (arith, append_nothing w)
  | inr other ↦ elim (Option-cases (split_line p)) [
    | inl h ↦ ground arith
    | inr ((line', rest'), h) ↦
        ground
          (arith, split_some (append w (c ∷ [])) p line' rest' h, append-append w (c ∷ []) line')
  ]
]

keep_rest-settle :
    (w : LineWriter) (p : Str) → split_line p ≡ none → keep_rest w p ≡ settle (feed w p)
unfolding keep_rest settle
keep_rest-settle w p e = rw (split_none w p e)

write_loop-settle :
    (fuel : ℕ) (w : LineWriter) (p : Str)
    → length p ≤ fuel
    → write_loop fuel w p ≡ settle (feed w p)
unfolding write_loop
write_loop-settle zero w [] h = keep_rest-settle w [] (unfold split_line in refl)
write_loop-settle zero w (c ∷ p) h = absurd (omega arith)
write_loop-settle (suc fuel) w p h = elim (Option-cases (split_line p)) [
  | inl e ↦ rw (e, write_loop) (keep_rest-settle w p e)
  | inr ((line, rest), e) ↦
      let (same, shorter) = split_some w p line rest e in
      rw (e, write_loop)
        (write_loop-settle fuel (emit (append w line)) rest (omega (arith, shorter)) ∙ rw same)
]

-- `Write` takes the output byte by byte, a line at each newline, and then logs a rest of `maxLine`
-- bytes or more; it reports every byte as written.
pub write-feed : (w : LineWriter) (p : Str) → write w p ≡ (settle (feed w p), length p)
unfolding write
write-feed w p = rw (write_loop-settle (length p) w p (omega arith))

settle_short : (w : LineWriter) → length w.buffer < max_line → settle w ≡ w
unfolding settle
settle_short w h = ground arith

-- Two writes log what one write of both parts logs, if the first leaves a rest that is not too long.
pub write_chunks :
    (w : LineWriter) (p q : Str)
    → length (feed w p).buffer < max_line
    → (write (write w p).0 q).0 ≡ (write w (p ++ q)).0
write_chunks w p q h =
    ap (λ (r : LineWriter × ℕ). (write r.0 q).0) (write-feed w p)
    ∙ ap (λ (r : LineWriter × ℕ). r.0) (write-feed (settle (feed w p)) q)
    ∙ ap (λ (v : LineWriter). settle (feed v q)) (settle_short (feed w p) h)
    ∙ ap settle (sym (feed-append w p q))
    ∙ ap (λ (r : LineWriter × ℕ). r.0) (sym (write-feed w (p ++ q)))
