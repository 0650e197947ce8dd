-- ===== src/PluginPool/LineWriter/Examples.antt =====
-- Plugin output in one and in several writes.
use android_lib_box_lite.Common.{
  cut_suffix, cut_prefix, ℕ, zero, suc, [], ◌∷◌, ◌++◌, Str, bytes, length, take, ◌≡◌, refl, arith,
}
use android_lib_box_lite.PluginPool.LineWriter.{LineWriter, max_line, newline, entry_of, write}
use android_lib_box_lite.PluginPool.LineWriter.Entries.{
  IsOneLine, IsTidy, fresh, entries_of, write-IsTidy, write_long_line,
}

abbrev begun : LineWriter
begun = record { buffer = bytes "st"; log = [] }

abbrev chunk : Str
chunk = bytes "arted" ++ (newline ∷ bytes "read")

begun-IsTidy : IsTidy begun
begun-IsTidy = record {
  unfinished = (omega arith, (omega arith, tt));
  short = omega arith;
  entries = tt;
}

write-IsTidy_example : IsTidy (write begun chunk).0
write-IsTidy_example = write-IsTidy begun chunk begun-IsTidy

repeated : ℕ → Str
repeated zero = []
repeated (suc n) = b'x' ∷ repeated n

repeated-IsOneLine : (n : ℕ) → IsOneLine (repeated n)
unfolding repeated
repeated-IsOneLine zero = tt
repeated-IsOneLine (suc n) = (omega arith, repeated-IsOneLine n)

repeated-length : (n : ℕ) → length (repeated n) ≡ n
unfolding repeated
repeated-length zero = refl
repeated-length (suc n) = omega (arith, repeated-length n)

tail-entry_of : entry_of (bytes "tail") ≡ bytes "tail"
unfolding entry_of cut_suffix cut_prefix
tail-entry_of = refl

write_long_line_example :
    ((write (fresh []) ((repeated 5000 ++ bytes "tail") ++ (newline ∷ []))).0
      ≡ fresh ([] ++ (take max_line (repeated 5000) ∷ [])))
    × ((write (write (fresh []) (repeated 5000)).0 (bytes "tail" ++ (newline ∷ []))).0
        ≡ fresh
            (([] ++ (take max_line (repeated 5000) ∷ [])) ++ entries_of (entry_of (bytes "tail"))))
unfolding entry_of
write_long_line_example =
    write_long_line [] (repeated 5000) (bytes "tail") (repeated-IsOneLine 5000)
      (omega arith, (omega arith, (omega arith, (omega arith, tt))))
      (omega (arith, repeated-length 5000))
