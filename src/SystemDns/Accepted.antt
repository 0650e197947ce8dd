-- ===== src/SystemDns/Accepted.antt =====
-- Which frames are accepted, and what their servers are.
use android_lib_box_lite.Common.{
  ◌≤◌, Bool, true, false, ◌&&◌, Option, none, some, is_some, List, [], ◌∷◌, Str, str_eq_iff, has,
  leb, length, All, All-mono, ◌≡◌, ◌≢◌, ◌↔◌, refl, ap, arith, Bool-cases, Option-cases, inl, inr,
  leb→le,
}
use android_lib_box_lite.Common.Strconv.{ℤ, pos, negsuc}
use android_lib_box_lite.PluginPool.Options.Names.{Distinct}
use android_lib_box_lite.SystemDns.{
  Snapshot, Endpoint, max_servers, is_version_one, is_usable, prepend, unique_endpoints,
  within_limit, checked, decode_snapshot,
}

unseen_apart :
    (x t : Str) (seen : List Str) → has (x ∷ seen) t ≡ false → (x ≢ t) × (has seen t ≡ false)
unfolding has
unseen_apart x t seen f = (λ q. ground (arith, str_eq_iff x t), ground arith)

is_usable_iff :
    (e : Endpoint)
    → (is_usable e ≡ true) ↔ (
        (e.port ≡ 53)
        × (e.is_unspecified ≡ false)
        × (e.is_loopback ≡ false)
        × (e.is_multicast ≡ false))
unfolding is_usable
is_usable_iff e =
    (λ h. (ground arith, ground arith, ground arith, ground arith), λ (a, b, c, d). ground arith)

module _ (parse_endpoint : Str → Option Endpoint) where
  -- A server that is an endpoint on port 53, of an address that is not the unspecified one, no loopback
  -- and no multicast address.
  abbrev pub Usable : Str → Type 0
  Usable server =
      (e : Endpoint) × (parse_endpoint server ≡ some e)
      × (e.port ≡ 53)
      × (e.is_unspecified ≡ false)
      × (e.is_loopback ≡ false)
      × (e.is_multicast ≡ false)

  -- A frame that is one snapshot of version 1 with at most 32 servers, all of them `Usable`.
  pub record Accepts (decode : Str → Option Snapshot) (frame : Str) : Type 0 where
    pub snapshot : Snapshot
    pub servers : List Str
    pub decodes : decode frame ≡ some snapshot
    pub at_end : snapshot.at_end ≡ true
    pub version_one : snapshot.version ≡ pos 1
    pub given : snapshot.servers ≡ some servers
    pub few : length servers ≤ max_servers
    pub usable : All Usable servers

  is_usable-Usable :
      (server : Str) (e : Endpoint)
      → parse_endpoint server ≡ some e
      → is_usable e ≡ true
      → Usable server
  is_usable-Usable server e p ok = let (a, b, c, d) = (is_usable_iff e).0 ok in (e, p, a, b, c, d)

  unique_endpoints_complete :
      (servers seen : List Str)
      → All Usable servers
      → (r : List Str) × (unique_endpoints parse_endpoint servers seen ≡ some r)
  unfolding unique_endpoints
  unique_endpoints_complete [] seen u = ([], refl)
  unique_endpoints_complete (server ∷ servers) seen ((e, p, a, b, c, d), u) =
      let ok = (is_usable_iff e).1 (a, b, c, d) in
      elim (Bool-cases (has seen e.text)) [
        | inl h ↦
            let (r, k) = unique_endpoints_complete servers seen u in
            (r, rw (p, unique_endpoints) (rw (ok, h) k))
        | inr h ↦
            let (r, k) = unique_endpoints_complete servers (e.text ∷ seen) u in
            (e.text ∷ r, rw (p, unique_endpoints) (rw (ok, h) (ap (prepend e.text) k)))
      ]

  unique_endpoints_sound :
      (servers seen : List Str) {r : List Str}
      → unique_endpoints parse_endpoint servers seen ≡ some r
      → All Usable servers
        × Distinct r
        × All (λ t. has seen t ≡ false) r
        × (length r ≤ length servers)
        × All (λ t. (e : Endpoint) × (is_usable e ≡ true) × (e.text ≡ t)) r
  unfolding unique_endpoints has
  unique_endpoints_sound [] seen {r} k =
      let same : r ≡ [] = cc in rw same (tt, tt, tt, omega arith, tt)
  unique_endpoints_sound (server ∷ servers) seen {r} k =
      elim (Option-cases (parse_endpoint server)) [
        | inl n ↦ cc (rw (n, unique_endpoints) at k)
        | inr (e, p) ↦ elim (Bool-cases (is_usable e)) [
          | inl ok ↦ elim (Bool-cases (has seen e.text)) [
            | inl h ↦
                let (u, d, s, l, t) =
                  unique_endpoints_sound servers seen (rw (p, ok, h, unique_endpoints) at k) in
                ((is_usable-Usable server e p ok, u), d, s, omega arith, t)
            | inr h ↦
                elim (Option-cases (unique_endpoints parse_endpoint servers (e.text ∷ seen))) [
                  | inl x ↦ cc (rw (p, ok, h, x, unique_endpoints) at k)
                  | inr (r', x) ↦
                      let same : r ≡ e.text ∷ r' = cc (rw (p, ok, h, x, unique_endpoints) at k) in
                      let (u, d, s, l, t) = unique_endpoints_sound servers (e.text ∷ seen) x in
                      rw same (
                        (is_usable-Usable server e p ok, u),
                        (All-mono r' (λ t f. (unseen_apart e.text t seen f).0) s, d),
                        (h, All-mono r' (λ t f. (unseen_apart e.text t seen f).1) s),
                        omega arith,
                        ((e, ok, refl), t),
                      )
                ]
          ]
          | inr bad ↦ cc (rw (p, bad, unique_endpoints) at k)
        ]
      ]

  is_version_one_iff : (v : ℤ) → (is_version_one v ≡ true) ↔ (v ≡ pos 1)
  is_version_one_iff (pos n) = ground arith
  is_version_one_iff (negsuc n) = (λ e. cc, λ e. cc)

  checked_served :
      (good : Bool) (o : Option (List Str)) {r : List Str}
      → checked parse_endpoint good o ≡ some r
      → (servers : List Str) × (good ≡ true)
        × (o ≡ some servers)
        × (length servers ≤ max_servers)
        × (unique_endpoints parse_endpoint servers [] ≡ some r)
  checked_served false o k = cc
  checked_served true none k = cc
  checked_served true (some servers) k = elim (Bool-cases (leb (length servers) max_servers)) [
    | inl b ↦ (servers, refl, refl, leb→le _ _ b, rw (b, within_limit) at k)
    | inr b ↦ cc (rw (b, within_limit) at k)
  ]

  -- A snapshot with servers.
  pub decode_snapshot_served :
      (decode : Str → Option Snapshot) (frame : Str) {r : List Str}
      → decode_snapshot parse_endpoint decode frame ≡ some r
      → (s : Snapshot) × (servers : List Str) × (decode frame ≡ some s)
        × (s.at_end ≡ true)
        × (s.version ≡ pos 1)
        × (s.servers ≡ some servers)
        × (length servers ≤ max_servers)
        × (unique_endpoints parse_endpoint servers [] ≡ some r)
  unfolding decode_snapshot
  decode_snapshot_served decode frame {r} k = elim (Option-cases (decode frame)) [
    | inl n ↦ cc (rw (n, decode_snapshot) at k)
    | inr (s, d) ↦
        let (servers, good, g, l, u) =
          checked_served (s.at_end && is_version_one s.version) s.servers
            (rw (d, decode_snapshot) at k) in
        (s, servers, d, ground arith, (is_version_one_iff s.version).0 (ground arith), g, l, u)
  ]

  checked_complete :
      (good : Bool) (o : Option (List Str)) (servers : List Str)
      → good ≡ true
      → o ≡ some servers
      → length servers ≤ max_servers
      → All Usable servers
      → is_some (checked parse_endpoint good o) ≡ true
  checked_complete good o servers g same few u =
      let (r, k) = unique_endpoints_complete servers [] u in
      let limit : leb (length servers) max_servers ≡ true = ground arith in
      rw (g, same) (rw (limit, within_limit) (rw k refl))

  -- A frame is decoded exactly when it is one snapshot of version 1 with at most 32 servers, each an
  -- endpoint on port 53 of an address that is not unspecified, no loopback and no multicast address.
  pub decode_snapshot_iff :
      (decode : Str → Option Snapshot) (frame : Str)
      → (is_some (decode_snapshot parse_endpoint decode frame) ≡ true) ↔ Accepts decode frame
  unfolding decode_snapshot
  decode_snapshot_iff decode frame = (
    λ k. elim (Option-cases (decode_snapshot parse_endpoint decode frame)) [
      | inl n ↦ cc (rw n at k)
      | inr (r, e) ↦
          let (s, servers, d, a, v, g, l, u) = decode_snapshot_served decode frame e in
          record {
            snapshot = s;
            servers = servers;
            decodes = d;
            at_end = a;
            version_one = v;
            given = g;
            few = l;
            usable = (unique_endpoints_sound servers [] u).0;
          }
    ],
    λ a.
        rw (a.decodes, decode_snapshot)
          (checked_complete (a.snapshot.at_end && is_version_one a.snapshot.version)
            a.snapshot.servers a.servers
            (ground (arith, a.at_end, (is_version_one_iff a.snapshot.version).1 a.version_one))
            a.given a.few a.usable),
  )

  -- The decoded servers are distinct, at most 32, and each is the text of a usable endpoint.
  pub decode_snapshot-Distinct :
      (decode : Str → Option Snapshot) (frame : Str) {r : List Str}
      → decode_snapshot parse_endpoint decode frame ≡ some r
      → Distinct r
        × (length r ≤ max_servers)
        × All (λ t. (e : Endpoint) × (is_usable e ≡ true) × (e.text ≡ t)) r
  decode_snapshot-Distinct decode frame k =
      let (s, servers, d, a, v, g, l, u) = decode_snapshot_served decode frame k in
      let (x, distinct, y, shorter, texts) = unique_endpoints_sound servers [] u in
      (distinct, omega arith, texts)
