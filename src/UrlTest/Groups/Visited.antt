-- ===== src/UrlTest/Groups/Visited.antt =====
-- The tags that a search has not visited fall with every group that it enters.
use android_lib_box_lite.Common.{
  ℕ, suc, ◌≤◌, ◌<◌, true, false, List, [], ◌∷◌, Str, str_eq_iff, has, if◌then◌else◌, length, ◌≡◌,
  arith,
}

-- How many of the tags have not been visited.
pub unvisited : List Str → List Str → ℕ
unvisited [] visited = 0
unvisited (tag ∷ tags) visited =
    let rest = unvisited tags visited in if has visited tag then rest else suc rest

pub unvisited-le-length : (tags visited : List Str) → unvisited tags visited ≤ length tags
unfolding unvisited
unvisited-le-length [] visited = omega arith
unvisited-le-length (tag ∷ tags) visited = ground (arith, unvisited-le-length tags visited)

unvisited-cons-le :
    (tags visited : List Str) (x : Str) → unvisited tags (x ∷ visited) ≤ unvisited tags visited
unfolding unvisited has
unvisited-cons-le [] visited x = omega arith
unvisited-cons-le (tag ∷ tags) visited x = ground (arith, unvisited-cons-le tags visited x)

-- Visiting a tag of the list makes the number fall.
pub unvisited-cons-lt :
    (tags visited : List Str) (x : Str)
    → has tags x ≡ true
    → has visited x ≡ false
    → unvisited tags (x ∷ visited) < unvisited tags visited
unfolding unvisited has
unvisited-cons-lt [] visited x h n = cc
unvisited-cons-lt (tag ∷ tags) visited x h n = ground (
  arith,
  unvisited-cons-lt tags visited x,
  unvisited-cons-le tags visited x,
  str_eq_iff tag x,
  str_eq_iff x tag,
)

-- `later` has visited what `earlier` has.
abbrev pub Extends : List Str → List Str → Type 0
Extends earlier later = (x : Str) → has earlier x ≡ true → has later x ≡ true

pub unvisited-Extends :
    (tags earlier later : List Str)
    → Extends earlier later
    → unvisited tags later ≤ unvisited tags earlier
unfolding unvisited
unvisited-Extends [] earlier later e = omega arith
unvisited-Extends (tag ∷ tags) earlier later e =
    ground (arith, unvisited-Extends tags earlier later e, e tag)
