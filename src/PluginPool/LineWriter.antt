-- ===== src/PluginPool/LineWriter.antt =====
-- `lineWriter` of native/pluginpool/host.go: plugin output turned into one log entry for each line.
-- The log is the list of the entries so far, without their prefix.
pub mod Lines
pub mod Entries
mod Examples
use android_lib_box_lite.Common.{
  ℕ, zero, suc, Option, none, some, List, [], ◌∷◌, ◌++◌, Str, leb, ltb, ◌==◌, if◌then◌else◌, length,
  take, cut_suffix,
}
use mathlib.Core.Option

abbrev pub max_line : ℕ
max_line = 4096

abbrev pub newline : ℕ
newline = 10

abbrev pub carriage_return : ℕ
carriage_return = 13

pub record LineWriter : Type 0 where
  pub buffer : Str
  pub log : List Str

-- bytes.TrimSuffix(buffer, "\r"), cut to `maxLine` bytes.
pub entry_of : Str → Str
entry_of buffer =
    let line = Option.get_or (cut_suffix buffer (carriage_return ∷ [])) buffer in
    if ltb max_line (length line) then take max_line line else line

abbrev logged : List Str → Str → List Str
logged log [] = log
logged log (c ∷ line) = log ++ ((c ∷ line) ∷ [])

pub emit : LineWriter → LineWriter
unfolding entry_of
emit w = record { buffer = []; log = logged w.log (entry_of w.buffer) }

-- bytes.IndexByte(p, '\n'): the bytes before the first newline and those behind it.
pub split_line : Str → Option (Str × Str)
split_line [] = none
split_line (c ∷ p) =
    let later = split_line p in
    if c == newline
    then some ([], p)
    else elim later [ none ↦ none | some (line, rest) ↦ some (c ∷ line, rest) ]

abbrev append : LineWriter → Str → LineWriter
append w p = record w { buffer = w.buffer ++ p }

-- The end of `Write`: what has no newline is kept, unless it is too long.
pub keep_rest : LineWriter → Str → LineWriter
keep_rest w p = let w' = append w p in if leb max_line (length w'.buffer) then emit w' else w'

-- The loop of `Write`, on fuel: each round takes a newline off `p`.
pub write_loop : ℕ → LineWriter → Str → LineWriter
write_loop zero w p = keep_rest w p
write_loop (suc fuel) w p = elim (split_line p) [
  | none ↦ keep_rest w p
  | some (line, rest) ↦ write_loop fuel (emit (append w line)) rest
]

pub write : LineWriter → Str → LineWriter × ℕ
write w p = (write_loop (length p) w p, length p)

pub flush : LineWriter → LineWriter
flush w = emit w
