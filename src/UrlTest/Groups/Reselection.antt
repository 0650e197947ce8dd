-- ===== src/UrlTest/Groups/Reselection.antt =====
-- After a URL test exactly the URL test groups select again that contain the measured outbound.
use android_lib_box_lite.Common.{
  Bool, true, false, Option, some, List, [], ◌∷◌, Str, str_eq, str_eq_iff, has, length, All, ◌≡◌,
  ◌↔◌, inl, inr, refl, sym, ap, subst, ◌∙◌, arith, Bool-cases,
}
use android_lib_box_lite.UrlTest.Groups.{
  Kind, plain, selector, url_test, Outbound, Manager, IsListed, IsManager, tags_of, members_of,
  group_members, group_contains, result_of, reselects, prepend, update_one, update_each,
  update_groups,
}
use android_lib_box_lite.UrlTest.Groups.Visited.{unvisited-le-length}
use android_lib_box_lite.UrlTest.Groups.Search.{
  Contains, direct, nested, Passed, Finished, Exhausted, Ends, found, exhausted,
  group_contains-Ends,
}

All-has {κ} : (P : Str → Type κ) (xs : List Str) (x : Str) → All P xs → has xs x ≡ true → P x
unfolding has
All-has P [] x a h = cc
All-has P (y ∷ xs) x a h = elim (Bool-cases (str_eq y x)) [
  | inl same ↦ subst P ((str_eq_iff y x).0 same) a.0
  | inr other ↦ All-has P xs x a.1 (ground arith)
]

length-tags_of : (os : List Outbound) → length (tags_of os) ≡ length os
length-tags_of [] = refl
length-tags_of (o ∷ os) = omega (arith, length-tags_of os)

-- A listed URL test group with this tag that contains the measured outbound.
abbrev pub Reselected : Manager → Str → List Outbound → Str → Type 0
Reselected m tag os t =
    (o : Outbound) × (members : List Str) × IsListed o os
    × (o.tag ≡ t)
    × (o.kind ≡ url_test members)
    × Contains m tag members

module _ (m : Manager) (laws : IsManager m) (tag : Str) where
  -- Where all that is visited is finished, what contains the tag is not passed.
  closed-not-Contains :
      (visited : List Str)
      → ((x : Str) → has visited x ≡ true → Finished m tag visited x)
      → (members : List Str) → All (Passed m tag visited) members
      → Contains m tag members
      → ⊥
  closed-not-Contains visited closed members passed (direct h) =
      (All-has (Passed m tag visited) members tag passed h).0 refl
  closed-not-Contains visited closed members passed (nested member inner h g c) =
      let (inner', g', p) =
        closed member ((All-has (Passed m tag visited) members member passed h).1 inner g) in
      let same : inner' ≡ inner = cc in
      closed-not-Contains visited closed inner (subst (All (Passed m tag visited)) same p) c

  -- The search from a group decides whether it contains the tag.
  pub reselects_decides :
      (o : Outbound) (members : List Str)
      → IsListed o m.outbounds
      → members_of o.kind ≡ some members
      → (b : Bool) × (reselects m tag o members ≡ some b) × ((b ≡ true) ↔ Contains m tag members)
  unfolding reselects
  reselects_decides o members listed k =
      decided (group_contains m (length m.outbounds) tag members (o.tag ∷ [])) (
        group_contains-Ends m tag laws (length m.outbounds) members (o.tag ∷ []) (
          omega (
            arith,
            unvisited-le-length (tags_of m.outbounds) (o.tag ∷ []),
            length-tags_of m.outbounds,
          )))
    where
      own : group_members m o.tag ≡ some members
      own = rw (laws.listed_found o listed) k

      finished :
          (visited : List Str)
          → Exhausted m tag (o.tag ∷ []) members visited
          → (x : Str) → has visited x ≡ true
          → Finished m tag visited x
      finished visited e x h = elim (e.finished x h) [
        | inr done ↦ done
        | inl start ↦
            let same : o.tag ≡ x = (str_eq_iff o.tag x).0 (unfold has in ground arith) in
            subst (Finished m tag visited) same (members, own, e.passed)
      ]

      decided :
          (r : Option (Bool × List Str))
          → Ends m tag members (o.tag ∷ []) r
          → (b : Bool) × (result_of m r ≡ some b) × ((b ≡ true) ↔ Contains m tag members)
      decided _ (found visited c) = (true, refl, (λ _. c, λ _. refl))
      decided _ (exhausted visited e) = (
        false,
        refl,
        (
          λ f. cc,
          λ c. absurd (closed-not-Contains visited (finished visited e) members e.passed c),
        ),
      )

  abbrev Decides : List Outbound → Option (List Str) → Type 0
  Decides os r =
      (tags : List Str) × (r ≡ some tags)
      × ((t : Str) → (has tags t ≡ true) ↔ Reselected m tag os t)

  Reselected-later :
      (o : Outbound) (os : List Outbound) (t : Str)
      → Reselected m tag os t
      → Reselected m tag (o ∷ os) t
  Reselected-later o os t (o', members, listed, e, k, c) = (o', members, inr listed, e, k, c)

  Decides-skip :
      (o : Outbound) (os : List Outbound) (rest : Option (List Str))
      → ((members : List Str) → o.kind ≡ url_test members → Contains m tag members → ⊥)
      → Decides os rest
      → Decides (o ∷ os) rest
  Decides-skip o os rest outside (tags, r, decides) = (
    tags,
    r,
    λ t. (
      λ h. Reselected-later o os t ((decides t).0 h),
      λ (o', members, listed, e, k, c). elim listed [
        | inl same ↦ absurd (outside members (cc) c)
        | inr later ↦ (decides t).1 (o', members, later, e, k, c)
      ],
    ),
  )

  Decides-take :
      (o : Outbound) (os : List Outbound) (rest : Option (List Str)) (members : List Str)
      → o.kind ≡ url_test members
      → Contains m tag members
      → Decides os rest
      → Decides (o ∷ os) (prepend m true o.tag rest)
  Decides-take o os rest members k c (tags, r, decides) = (
    o.tag ∷ tags,
    ap (prepend m true o.tag) r,
    λ t. (
      λ h. elim (Bool-cases (str_eq o.tag t)) [
        | inl same ↦ (o, members, inl refl, (str_eq_iff o.tag t).0 same, k, c)
        | inr other ↦ Reselected-later o os t ((decides t).0 (unfold has in ground arith))
      ],
      λ (o', members', listed, e, k', c'). elim listed [
        | inl same ↦
            unfold has in
            ground (arith, (str_eq_iff o.tag t).1 (ap (λ (x : Outbound). x.tag) (sym same) ∙ e))
        | inr later ↦ unfold has in ground (arith, (decides t).1 (o', members', later, e, k', c'))
      ],
    ),
  )

  update_one-Decides :
      (o : Outbound) (os : List Outbound) (rest : Option (List Str)) (k : Kind)
      → o.kind ≡ k
      → IsListed o m.outbounds
      → Decides os rest
      → Decides (o ∷ os) (update_one m tag o k rest)
  update_one-Decides o os rest plain e listed d =
      Decides-skip o os rest (λ members k c. cc (e, k)) d
  update_one-Decides o os rest (selector _) e listed d =
      Decides-skip o os rest (λ members k c. cc (e, k)) d
  update_one-Decides o os rest (url_test members) e listed d =
      let (b, r, contains) = reselects_decides o members listed (ap members_of e) in
      rw r (searched b contains)
    where
      searched :
          (b : Bool)
          → (b ≡ true) ↔ Contains m tag members
          → Decides (o ∷ os) (prepend m b o.tag rest)
      searched true contains = Decides-take o os rest members e (contains.0 refl) d
      searched false contains =
          Decides-skip o os (prepend m false o.tag rest)
            (λ members' k c. cc (contains.1 (subst (Contains m tag) (same members' k) c)))
            (let (tags, r, decides) = d in (tags, ap (prepend m false o.tag) r, decides))
        where
          same : (members' : List Str) → o.kind ≡ url_test members' → members' ≡ members
          same members' k = cc (e, k)

  update_each-Decides :
      (os : List Outbound)
      → ((o : Outbound) → IsListed o os → IsListed o m.outbounds)
      → Decides os (update_each m tag os)
  unfolding update_each has
  update_each-Decides [] all =
      ([], refl, λ t. (λ h. cc, λ (o, members, listed, e, k, c). absurd listed))
  update_each-Decides (o ∷ os) all =
      update_one-Decides o os (update_each m tag os) o.kind refl (all o (inl refl))
        (update_each-Decides os (λ o' l. all o' (inr l)))

-- After a measurement of an outbound the update ends, and PerformUpdateCheck is called for exactly the
-- URL test groups of the manager that contain the outbound, as a member or through groups inside groups,
-- also where groups contain each other.
pub update_groups_decides :
    (m : Manager) (tag : Str)
    → IsManager m
    → (tags : List Str) × (update_groups (some m) tag ≡ some tags)
      × ((t : Str) → (has tags t ≡ true) ↔ Reselected m tag m.outbounds t)
unfolding update_groups
update_groups_decides m tag laws = update_each-Decides m laws tag m.outbounds (λ o l. l)
