-- ===== src/UrlTest/Groups.antt =====
-- Which groups select again after a URL test (patches/daemon/url_test_options.go): `urlTestUpdateGroups`
-- and `urlTestGroupContains`. The outbound manager of the core is a parameter, with its laws.
pub mod Visited
pub mod Search
pub mod Reselection
mod Examples
use android_lib_box_lite.Common.{
  ℕ, zero, suc, Bool, true, false, Option, none, some, List, [], ◌∷◌, Str, str_eq, has,
  if◌then◌else◌, length, ◌≡◌, ◌⊎◌, ◌>>=◌,
}

-- An adapter.Outbound: no group, an adapter.OutboundGroup, or one that is an adapter.URLTestGroup.
pub data Kind : Type 0 where
  plain : Kind
  selector url_test : List Str → Kind

pub record Outbound : Type 0 where
  pub tag : Str
  pub kind : Kind

-- adapter.OutboundManager, with the methods that are used.
pub record Manager : Type 0 where
  pub outbounds : List Outbound
  pub find : Str → Option Outbound
  pub default : Outbound

abbrev pub tags_of : List Outbound → List Str
tags_of [] = []
tags_of (o ∷ os) = o.tag ∷ tags_of os

abbrev pub IsListed : Outbound → List Outbound → Type 0
IsListed o [] = ⊥
IsListed o (o' ∷ os) = (o ≡ o') ⊎ IsListed o os

-- What the manager documents: an outbound is found by its tag exactly when it is listed.
pub record IsManager (m : Manager) : Type 0 where
  pub listed_found : (o : Outbound) → IsListed o m.outbounds → m.find o.tag ≡ some o
  pub found_listed :
      (tag : Str) (o : Outbound) → m.find tag ≡ some o → has (tags_of m.outbounds) tag ≡ true

abbrev pub members_of : Kind → Option (List Str)
members_of plain = none
members_of (selector members) = some members
members_of (url_test members) = some members

module _ (m : Manager) where
  -- The members of the group with a tag, if there is one.
  abbrev pub group_members : Str → Option (List Str)
  group_members tag = m.find tag >>= λ o. members_of o.kind

  -- What comes after the recursive call: nothing if it found the tag.
  abbrev continue_with :
      Option (Bool × List Str) → (List Str → Option (Bool × List Str)) → Option (Bool × List Str)
  continue_with none next = none
  continue_with (some (true, visited)) next = some (true, visited)
  continue_with (some (false, visited)) next = next visited

  -- A member that is neither the tag nor visited: a group is visited, searched by `inside`, and left.
  abbrev enter :
      (List Str → List Str → Option (Bool × List Str))
      → (List Str → Option (Bool × List Str))
      → Str
      → List Str
      → Option (List Str)
      → Option (Bool × List Str)
  enter inside next member visited none = next visited
  enter inside next member visited (some nested) =
      continue_with (inside nested (member ∷ visited)) next

  -- The loop of `urlTestGroupContains` over the members, with the recursive call as an argument. The
  -- result comes with what `visited` holds then.
  pub scan :
      (List Str → List Str → Option (Bool × List Str))
      → Str
      → List Str
      → List Str
      → Option (Bool × List Str)
  scan inside tag [] visited = some (false, visited)
  scan inside tag (member ∷ members) visited =
      let next = scan inside tag members in
      if str_eq member tag
      then some (true, visited)
      else if has visited member
      then next visited
      else enter inside next member visited (group_members member)

  -- `urlTestGroupContains`. Each call inside another takes fuel; `none` says that there was too little.
  pub group_contains : ℕ → Str → List Str → List Str → Option (Bool × List Str)
  group_contains zero tag = scan (λ nested visited. none) tag
  group_contains (suc fuel) tag = scan (group_contains fuel tag) tag

  abbrev result_of : Option (Bool × List Str) → Option Bool
  result_of none = none
  result_of (some (b, visited)) = some b

  -- A round of the loop of `urlTestUpdateGroups` for one group. No call is deeper than there are
  -- outbounds.
  pub reselects : Str → Outbound → List Str → Option Bool
  reselects tag o members = result_of (group_contains (length m.outbounds) tag members (o.tag ∷ []))

  abbrev prepend : Bool → Str → Option (List Str) → Option (List Str)
  prepend found tag none = none
  prepend true tag (some tags) = some (tag ∷ tags)
  prepend false tag (some tags) = some tags

  abbrev update_one : Str → Outbound → Kind → Option (List Str) → Option (List Str)
  update_one tag o plain rest = rest
  update_one tag o (selector members) rest = rest
  update_one tag o (url_test members) rest =
      reselects tag o members >>= λ found. prepend found o.tag rest

  pub update_each : Str → List Outbound → Option (List Str)
  update_each tag [] = some []
  update_each tag (o ∷ os) = let rest = update_each tag os in update_one tag o o.kind rest

-- `urlTestUpdateGroups`: the tags of the groups whose PerformUpdateCheck is called, in order.
pub update_groups : Option Manager → Str → Option (List Str)
update_groups none tag = some []
update_groups (some m) tag = update_each m tag m.outbounds
