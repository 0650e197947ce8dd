-- ===== src/SystemDns/Client/Following.antt =====
-- What the local transport of the core is given, from the start of the helper to its end.
use android_lib_box_lite.Common.{
  ℕ, suc, Bool, true, false, not, ◌&&◌, Option, none, some, List, [], ◌∷◌, Str, has, str_eq_iff,
  ◌≡◌, refl, sym, ap, subst, ◌∙◌, arith, Bool-cases, Option-cases, if-split, inl, inr,
}
use android_lib_box_lite.SystemDns.{Snapshot, Endpoint, is_usable, unique_endpoints}
use android_lib_box_lite.SystemDns.Accepted.{decode_snapshot_served}
use android_lib_box_lite.SystemDns.Source.{managed_servers}
use android_lib_box_lite.SystemDns.Client.{
  Client, helper_ended, stop, same_servers, parse_all, stored, update, read, received, broken,
  handled, latest,
}

-- netip documents that the text of an endpoint is read as that endpoint.
abbrev pub IsParser : (Str → Option Endpoint) → Type 0
IsParser parse_endpoint =
    (s : Str) (e : Endpoint) → parse_endpoint s ≡ some e → parse_endpoint e.text ≡ some e

same_servers_sound : (ss ts : List Str) → same_servers ss ts ≡ true → ss ≡ ts
unfolding same_servers
same_servers_sound [] [] h = refl
same_servers_sound [] (t ∷ ts) h = cc
same_servers_sound (s ∷ ss) [] h = cc
same_servers_sound (s ∷ ss) (t ∷ ts) h =
    let first : s ≡ t = (str_eq_iff s t).0 (ground arith) in
    let rest : ss ≡ ts = same_servers_sound ss ts (ground arith) in cc (first, rest)

-- No end of the socket pair, no connection and no helper process is left.
abbrev pub IsReleased : {A : Type 0} → Client A → Type 0
IsReleased c =
    (c.parent_open ≡ false)
    × (c.child_open ≡ false)
    × (c.connection_open ≡ false)
    × (c.helper_runs ≡ false)

module _ {A : Type 0} (socksaddr : Endpoint → A) (search : List Str)
    (parse_endpoint : Str → Option Endpoint) (decode : Str → Option Snapshot) where
  abbrev pub Publishes : List Endpoint → Client A → Type 0
  Publishes endpoints c = c.managed ≡ some (managed_servers socksaddr search endpoints)

  -- While the channel has not failed, the endpoints of the last snapshot are published. Once it has, none
  -- are, the loop has ended, and the core has signalled itself once.
  abbrev pub ChannelFits : Bool → List Str → Client A → Type 0
  ChannelFits false last c =
      ((endpoints : List Endpoint) × (parse_all parse_endpoint last ≡ some endpoints)
        × Publishes endpoints c)
      × (c.previous ≡ last)
      × (c.signals ≡ 0)
      × (c.exit_armed ≡ false)
  ChannelFits true last c =
      Publishes [] c × (c.ended ≡ true) × (c.signals ≡ 1) × (c.exit_armed ≡ true)

  -- The connection is open until `stop` is called, and after it nothing is left. The helper may end at
  -- any time.
  abbrev pub HelperFits : Client A → Type 0
  HelperFits c =
      (c.parent_open ≡ false)
      × (c.child_open ≡ false)
      × (c.connection_open ≡ not c.stopping)
      × (c.stopping ≡ true → c.helper_runs ≡ false)

  abbrev pub Fits : List Str → Client A → Type 0
  Fits last c = (c.panicked ≡ false) × ChannelFits c.channel_failed last c × HelperFits c

  module _ (laws : IsParser parse_endpoint) where
    -- The texts of parsed endpoints are parsed again.
    unique_endpoints-parse_all :
        (servers seen : List Str) {r : List Str}
        → unique_endpoints parse_endpoint servers seen ≡ some r
        → (endpoints : List Endpoint) × (parse_all parse_endpoint r ≡ some endpoints)
    unfolding unique_endpoints parse_all
    unique_endpoints-parse_all [] seen {r} k = let same : r ≡ [] = cc in rw same ([], refl)
    unique_endpoints-parse_all (server ∷ servers) seen {r} k =
        elim (Option-cases (parse_endpoint server)) [
          | inl n ↦ absurd (cc (rw (n, unique_endpoints) at k))
          | inr (e, p) ↦ elim (Bool-cases (is_usable e)) [
            | inr bad ↦ absurd (cc (rw (p, bad, unique_endpoints) at k))
            | inl good ↦ elim (Bool-cases (has seen e.text)) [
              | inl h ↦
                  unique_endpoints-parse_all servers seen (rw (p, good, h, unique_endpoints) at k)
              | inr h ↦
                  elim (Option-cases (unique_endpoints parse_endpoint servers (e.text ∷ seen))) [
                    | inl x ↦ absurd (cc (rw (p, good, h, x, unique_endpoints) at k))
                    | inr (r', x) ↦
                        let same : r ≡ e.text ∷ r' =
                          cc (rw (p, good, h, x, unique_endpoints) at k) in
                        let (endpoints, parsed) =
                          unique_endpoints-parse_all servers (e.text ∷ seen) x in
                        rw same (e ∷ endpoints, rw (laws server e p, parsed, parse_all) refl)
                  ]
            ]
          ]
        ]

    pub read-parse_all :
        (frame : Option Str) {servers : List Str}
        → read parse_endpoint decode frame ≡ some servers
        → (endpoints : List Endpoint) × (parse_all parse_endpoint servers ≡ some endpoints)
    read-parse_all none k = cc
    read-parse_all (some frame) k =
        let (s, given, d, a, v, g, l, u) = decode_snapshot_served parse_endpoint decode frame k in
        unique_endpoints-parse_all given [] u

    -- The channel of a loop that has not ended has not failed.
    channel_up :
        (last : List Str) (c : Client A)
        → c.ended ≡ false
        → Fits last c
        → (c.channel_failed ≡ false) × ChannelFits false last c
    channel_up last c alive (calm, channel, helper) = elim (Bool-cases c.channel_failed) [
      | inr up ↦ (up, subst (λ (b : Bool). ChannelFits b last c) up channel)
      | inl down ↦
          let (none_left, ended, once, armed) =
            subst (λ (b : Bool). ChannelFits b last c) down channel in
          absurd (cc (alive, ended))
    ]

    pub updated-Publishes :
        (servers : List Str) (endpoints : List Endpoint) (c : Client A)
        → parse_all parse_endpoint servers ≡ some endpoints
        → update socksaddr search parse_endpoint decode servers c
          ≡ record c { managed = some (managed_servers socksaddr search endpoints) }
    unfolding update
    updated-Publishes servers endpoints c e =
        ap (λ (o : Option (List Endpoint)). stored socksaddr search parse_endpoint decode o c) e

    received-Fits :
        (servers last : List Str) (endpoints : List Endpoint) (c : Client A)
        → parse_all parse_endpoint servers ≡ some endpoints
        → c.ended ≡ false
        → Fits last c
        → Fits servers (received socksaddr search parse_endpoint decode servers c)
    received-Fits servers last endpoints c e alive fits =
        let (calm, channel, helper) = fits in
        let (up, (published, was, once, armed)) = channel_up last c alive fits in
        if-split (Fits servers) (same_servers c.previous servers)
          (λ same.
            let equal : last ≡ servers = sym was ∙ same_servers_sound c.previous servers same in
            subst (λ (l : List Str). Fits l c) equal fits)
          (λ _.
            subst (λ (x : Client A). Fits servers (record x { previous = servers }))
              (sym (updated-Publishes servers endpoints c e))
              (
                calm,
                subst
                    (λ (b : Bool). ChannelFits b servers (record c {
                      managed = some (managed_servers socksaddr search endpoints);
                      previous = servers;
                    }))
                    (sym up) ((endpoints, e, refl), refl, once, armed),
                helper,
              ))

    broken-Fits :
        (last : List Str) (c : Client A)
        → c.ended ≡ false
        → Fits last c
        → Fits last (broken socksaddr search parse_endpoint decode c)
    unfolding update parse_all
    broken-Fits last c alive fits =
        let (calm, channel, helper) = fits in
        let (up, (published, was, once, armed)) = channel_up last c alive fits in
        if-split (Fits last) c.stopping
          (λ _. (
            calm,
            subst (λ (b : Bool). ChannelFits b last (record c { ended = true })) (sym up)
                (published, was, once, armed),
            helper,
          ))
          (λ running. (calm, (refl, refl, ap (λ (n : ℕ). suc n) once, refl), helper))

    pub handled-Fits :
        (frame : Option Str) (last : List Str) (c : Client A) (r : Option (List Str))
        → read parse_endpoint decode frame ≡ r
        → c.ended ≡ false
        → Fits last c
        → Fits
            (latest socksaddr search parse_endpoint decode r last)
            (handled socksaddr search parse_endpoint decode r c)
    handled-Fits frame last c none e alive fits = broken-Fits last c alive fits
    handled-Fits frame last c (some servers) e alive fits =
        let (endpoints, parsed) = read-parse_all frame e in
        received-Fits servers last endpoints c parsed alive fits

    pub helper_ended-Fits :
        (last : List Str) (c : Client A) → Fits last c → Fits last (helper_ended c)
    unfolding helper_ended
    helper_ended-Fits last c (calm, channel, helper) =
        (calm, kept c.channel_failed channel, (helper.0, helper.1, helper.2, λ _. refl))
      where
        kept :
            (b : Bool)
            → ChannelFits b last c
            → ChannelFits b last (record c { helper_runs = false })
        kept false h = h
        kept true h = h

    pub stop-Fits :
        (ends_in_time : Bool) (last : List Str) (c : Client A)
        → Fits last c
        → Fits last (stop ends_in_time c)
    unfolding stop
    stop-Fits ends_in_time last c (calm, channel, helper) =
        let stopped : Fits last (record c {
          stopping = true;
          connection_open = false;
          helper_runs = false;
          killed = c.helper_runs && not ends_in_time;
        }) =
          (calm, kept c.channel_failed channel, (helper.0, helper.1, refl, λ _. refl)) in
        if-split (Fits last) c.stopping (λ _. (calm, channel, helper)) (λ _. stopped)
      where
        kept :
            (b : Bool)
            → ChannelFits b last c
            → ChannelFits b last (record c {
              stopping = true;
              connection_open = false;
              helper_runs = false;
              killed = c.helper_runs && not ends_in_time;
            })
        kept false h = h
        kept true h = h
