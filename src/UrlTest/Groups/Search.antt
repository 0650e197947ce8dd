-- ===== src/UrlTest/Groups/Search.antt =====
-- The search of `urlTestGroupContains` ends, and finds what can be reached through groups.
use android_lib_box_lite.Common.{
  ℕ, zero, suc, ◌≤◌, ◌<◌, Bool, true, false, Option, none, some, List, [], ◌∷◌, Str, str_eq,
  str_eq_iff, has, All, All-mono, ◌≡◌, ◌≢◌, ◌⊎◌, inl, inr, refl, subst, arith, Bool-cases, if-split,
  Option-cases,
}
use android_lib_box_lite.UrlTest.Groups.Visited.{
  unvisited, unvisited-cons-lt, Extends, unvisited-Extends,
}
use android_lib_box_lite.UrlTest.Groups.{
  Manager, IsManager, tags_of, group_members, continue_with, enter, scan, group_contains,
}

-- The tag is a member, or is reached through a member that is a group.
pub data Contains (m : Manager) (tag : Str) : List Str → Type 0 where
  direct : {members : List Str} → has members tag ≡ true → Contains m tag members
  nested :
      {members : List Str} (member : Str) (inner : List Str)
      → has members member ≡ true
      → group_members m member ≡ some inner
      → Contains m tag inner
      → Contains m tag members

module _ (m : Manager) (tag : Str) where
  -- A member that the search is done with: it is not the tag, and a group is visited.
  abbrev pub Passed : List Str → Str → Type 0
  Passed visited member =
      (member ≢ tag)
      × ((inner : List Str) → group_members m member ≡ some inner → has visited member ≡ true)

  -- A visited group whose members are all passed.
  abbrev pub Finished : List Str → Str → Type 0
  Finished visited x =
      (inner : List Str) × (group_members m x ≡ some inner) × All (Passed visited) inner

  Passed-Extends :
      (earlier later members : List Str)
      → Extends earlier later
      → All (Passed earlier) members
      → All (Passed later) members
  Passed-Extends earlier later members e =
      All-mono members (λ member p. (p.0, λ inner g. e member (p.1 inner g)))

  -- What a search that does not find the tag has done.
  pub record Exhausted (visited : List Str) (members : List Str) (visited' : List Str)
      : Type 0 where
    pub grown : Extends visited visited'
    pub passed : All (Passed visited') members
    pub finished : (x : Str) → has visited' x ≡ true → (has visited x ≡ true) ⊎ Finished visited' x

  -- A search that ends as it should: it finds the tag where it is contained, or is exhausted.
  pub data Ends (members visited : List Str) : Option (Bool × List Str) → Type 0 where
    found :
        (visited' : List Str)
        → Contains m tag members
        → Ends members visited (some (true, visited'))
    exhausted :
        (visited' : List Str)
        → Exhausted visited members visited'
        → Ends members visited (some (false, visited'))

  Contains-cons :
      (member : Str) {members : List Str}
      → Contains m tag members
      → Contains m tag (member ∷ members)
  unfolding has
  Contains-cons member (direct h) = direct (ground arith)
  Contains-cons member (nested x inner h g c) = nested x inner (ground arith) g c

  Ends-skip :
      (member : Str) (members visited : List Str) {r : Option (Bool × List Str)}
      → member ≢ tag
      → ((inner : List Str) → group_members m member ≡ some inner → has visited member ≡ true)
      → Ends members visited r
      → Ends (member ∷ members) visited r
  Ends-skip member members visited ne known (found visited' c) =
      found visited' (Contains-cons member c)
  Ends-skip member members visited ne known (exhausted visited' e) = exhausted visited' (record {
    grown = e.grown;
    passed = ((ne, λ inner g. e.grown member (known inner g)), e.passed);
    finished = e.finished;
  })

  -- The recursive call was exhausted, and the loop goes on with what it has visited.
  Exhausted-trans :
      (member : Str) (inner members visited visited' visited'' : List Str)
      → member ≢ tag
      → group_members m member ≡ some inner
      → Exhausted (member ∷ visited) inner visited'
      → Exhausted visited' members visited''
      → Exhausted visited (member ∷ members) visited''
  unfolding has
  Exhausted-trans member inner members visited visited' visited'' ne g a b = record {
    grown = λ x h. b.grown x (a.grown x (ground arith));
    passed = (
      (ne, λ _ _. b.grown member (a.grown member (ground (arith, str_eq_iff member member)))),
      b.passed,
    );
    finished = λ x h. elim (b.finished x h) [
      | inr done ↦ inr done
      | inl before ↦ elim (a.finished x before) [
        | inr (members', g', p) ↦
            inr (members', g', Passed-Extends visited' visited'' members' b.grown p)
        | inl start ↦ elim (Bool-cases (str_eq member x)) [
          | inl same ↦ inr (
              subst (Finished visited'') ((str_eq_iff member x).0 same)
                (inner, g, Passed-Extends visited' visited'' inner b.grown a.passed))
          | inr other ↦ inl (ground arith)
        ]
      ]
    ];
  }

  module _ (laws : IsManager m) where
    group_members-listed :
        (member : Str) (inner : List Str)
        → group_members m member ≡ some inner
        → has (tags_of m.outbounds) member ≡ true
    group_members-listed member inner g = elim (Option-cases (m.find member)) [
      | inl n ↦ cc (rw n at g)
      | inr (o, f) ↦ laws.found_listed member o f
    ]

    module _ (inside : List Str → List Str → Option (Bool × List Str)) (n : ℕ)
        (call : (inner visited : List Str)
          → unvisited (tags_of m.outbounds) visited < n
          → Ends inner visited (inside inner visited)) where
      enter-Ends :
          (members : List Str) (member : Str) (visited : List Str)
          → unvisited (tags_of m.outbounds) visited ≤ n
          → member ≢ tag
          → has visited member ≡ false
          → ((visited' : List Str)
              → unvisited (tags_of m.outbounds) visited' ≤ n
              → Ends members visited' (scan m inside tag members visited'))
          → (o : Option (List Str)) → group_members m member ≡ o
          → Ends
              (member ∷ members)
              visited
              (enter m inside (scan m inside tag members) member visited o)
      enter-Ends members member visited h ne new rest none g =
          Ends-skip member members visited ne (λ inner k. cc (g, k)) (rest visited h)
      enter-Ends members member visited h ne new rest (some inner) g =
          let tags = tags_of m.outbounds in
          let fewer =
            unvisited-cons-lt tags visited member (group_members-listed member inner g) new in
          returned (inside inner (member ∷ visited)) (call inner (member ∷ visited) (omega arith))
        where
          resumed :
              (visited' : List Str) {r : Option (Bool × List Str)}
              → Exhausted (member ∷ visited) inner visited'
              → Ends members visited' r
              → Ends (member ∷ members) visited r
          resumed visited' a (found visited'' c) = found visited'' (Contains-cons member c)
          resumed visited' a (exhausted visited'' b) =
              exhausted visited''
                (Exhausted-trans member inner members visited visited' visited'' ne g a b)

          returned :
              (r : Option (Bool × List Str))
              → Ends inner (member ∷ visited) r
              → Ends (member ∷ members) visited (continue_with m r (scan m inside tag members))
          returned _ (found visited' c) = found visited' (
              nested {members = member ∷ members} member inner
                (unfold has in ground (arith, str_eq_iff member member)) g c)
          returned _ (exhausted visited' a) =
              let smaller =
                unvisited-Extends (tags_of m.outbounds) visited visited'
                  (λ x k. a.grown x (unfold has in ground arith)) in
              resumed visited' a (rest visited' (omega arith))

      scan-Ends :
          (members visited : List Str)
          → unvisited (tags_of m.outbounds) visited ≤ n
          → Ends members visited (scan m inside tag members visited)
      unfolding scan
      scan-Ends [] visited h =
          exhausted visited (record { grown = λ x k. k; passed = tt; finished = λ x k. inl k })
      scan-Ends (member ∷ members) visited h =
          let next = scan-Ends members in
          if-split (Ends (member ∷ members) visited) (str_eq member tag)
            (λ same.
              found visited (direct {members = member ∷ members} (unfold has in ground arith)))
            (λ other.
              let ne : member ≢ tag = λ e. cc (other, (str_eq_iff member tag).1 e) in
              if-split (Ends (member ∷ members) visited) (has visited member)
                (λ seen. Ends-skip member members visited ne (λ _ _. seen) (next visited h))
                (λ new.
                  enter-Ends members member visited h ne new next (group_members m member) refl))

    pub group_contains-Ends :
        (fuel : ℕ) (members visited : List Str)
        → unvisited (tags_of m.outbounds) visited ≤ fuel
        → Ends members visited (group_contains m fuel tag members visited)
    unfolding group_contains
    group_contains-Ends zero members visited h =
        scan-Ends (λ _ _. none) 0 (λ _ _ k. absurd (omega arith)) members visited h
    group_contains-Ends (suc fuel) members visited h =
        scan-Ends (group_contains m fuel tag) (suc fuel)
          (λ inner visited' k. group_contains-Ends fuel inner visited' (omega arith)) members
          visited h
