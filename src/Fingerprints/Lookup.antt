-- ===== src/Fingerprints/Lookup.antt =====
-- Lookups in the tables of fingerprints, and the loop of `init`.
use android_lib_box_lite.Common.{
  ℕ, zero, suc, ◌+◌, ◌<◌, Bool, true, ◌&&◌, ◌||◌, Option, none, some, List, [], ◌∷◌, ◌++◌, Str,
  bytes, has, has-append, is_some, length, ◌≡◌, ◌⊎◌, inl, inr, refl, ap, arith,
}
use android_lib_box_lite.Fingerprints.Tables.{Profile, Table, lookup, assign}
use android_lib_box_lite.Fingerprints.{choose, or_else}

abbrev pub names_of : Table → List Str
names_of [] = []
names_of ((key, value) ∷ table) = key ∷ names_of table

abbrev pub IsListed : Str × Option Profile → Table → Type 0
IsListed entry [] = ⊥
IsListed entry (e ∷ table) = (entry ≡ e) ⊎ IsListed entry table

abbrev pub all_set : Table → Bool
all_set [] = true
all_set ((key, value) ∷ table) = is_some value && all_set table

-- Where all values are there, a name has one exactly when it is in the table.
pub lookup-names_of :
    (table rest : Table) (name : Str)
    → all_set table ≡ true
    → is_some (lookup name (table ++ rest))
      ≡ (has (names_of table) name || is_some (lookup name rest))
unfolding lookup has
lookup-names_of [] rest name all = refl
lookup-names_of ((key, value) ∷ table) rest name all =
    ground (arith, lookup-names_of table rest name)

pub IsListed-set :
    (table : Table) (key : Str) (value : Option Profile)
    → all_set table ≡ true
    → IsListed (key, value) table
    → (p : Profile) × (value ≡ some p)
IsListed-set [] key value all listed = absurd listed
IsListed-set ((key', some p) ∷ table) key value all (inl e) =
    (p, ap (λ (x : Str × Option Profile). x.1) e)
IsListed-set ((key', none) ∷ table) key value all (inl e) = cc (all)
IsListed-set ((key', value') ∷ table) key value all (inr listed) =
    IsListed-set table key value (ground arith) listed

-- The entry that the loop chooses.
pub choose-random :
    (i n stop_at : ℕ) (order presets : Table)
    → stop_at ≡ i + n
    → n < length order
    → (key : Str) × (value : Option Profile) × IsListed (key, value) order
      × (choose i stop_at order presets ≡ assign (bytes "random") value presets)
unfolding choose
choose-random i n stop_at [] presets e h = absurd (omega (arith, h))
choose-random i zero stop_at ((key, value) ∷ order) presets e h =
    (key, value, inl refl, ground arith)
choose-random i (suc n) stop_at ((key, value) ∷ order) presets e h =
    let (key', value', listed, chosen) =
      choose-random (suc i) n stop_at order presets (omega (arith, e)) (omega (arith, h)) in
    (key', value', inr listed, ground (arith, chosen))

is_some-or_else : (a b : Option Profile) → is_some (or_else a b) ≡ (is_some a || is_some b)
is_some-or_else none b = refl
is_some-or_else (some p) b = refl

pub lookup_whole :
    (table : Table) (name : Str)
    → all_set table ≡ true
    → is_some (lookup name table) ≡ has (names_of table) name
unfolding lookup has
lookup_whole [] name all = refl
lookup_whole ((key, value) ∷ table) name all = ground (arith, lookup_whole table name)

pub or_names :
    (a b c : List Str) (x y z : Option Profile) (name : Str)
    → is_some x ≡ has a name
    → is_some y ≡ has b name
    → is_some z ≡ has c name
    → is_some (or_else x (or_else y z)) ≡ has (a ++ (b ++ c)) name
or_names a b c x y z name hx hy hz =
    rw
      (
        is_some-or_else x (or_else y z),
        is_some-or_else y z,
        has-append a (b ++ c) name,
        has-append b c name,
        hx,
        hy,
        hz,
      )
      refl
