-- ===== src/PluginPool/Host/Listening.antt =====
-- `updateServer` and `listenProtect` keep the host consistent.
use android_lib_box_lite.Common.{
  Bool, Option, none, some, List, [], ◌∷◌, Str, str_eq, str_eq_iff, ◌≡◌, refl, ap, ◌∙◌, subst,
  arith, Bool-cases, if-split, inl, inr,
}
use android_lib_box_lite.PluginPool.World.{
  World, Os, IsAccounted, without_path, close_socket, open_socket, log, stale_socket_removed, Lstat,
  absent, socket, other_kind, unreadable,
}
use android_lib_box_lite.PluginPool.Host.{
  Server, Host, close_server, listen_at, replace_stale, listen_protect, listened, new_server,
  replace_server,
}
use android_lib_box_lite.PluginPool.Guards.{Error}
use android_lib_box_lite.PluginPool.Host.Consistency.{
  server_paths, IsConsistent, close_server-world,
}

abbrev pub Result-IsConsistent : Host × Option Error → Type 0
Result-IsConsistent r = IsConsistent r.0

-- Listening changes nothing but the sockets: the path is added, or they stay.
abbrev ListenOutcome : Str → World → World × Option Error → Type 0
ListenOutcome path w (w', some e) =
    (w'.running ≡ w.running)
    × (w'.next ≡ w.next)
    × (w'.files ≡ w.files)
    × (w'.sockets ≡ w.sockets)
    × (IsAccounted w → IsAccounted w')
ListenOutcome path w (w', none) =
    (w'.running ≡ w.running)
    × (w'.next ≡ w.next)
    × (w'.files ≡ w.files)
    × (w'.sockets ≡ path ∷ w.sockets)
    × (IsAccounted w → IsAccounted w')

logged-ListenOutcome :
    (path : Str) (w w0 : World) (r : World × Option Error)
    → w0 ≡ log (stale_socket_removed path) w
    → ListenOutcome path w0 r
    → ListenOutcome path w r
logged-ListenOutcome path w w0 (w', some e) same o = rw same at o
logged-ListenOutcome path w w0 (w', none) same o = rw same at o

module _ (os : Os) where
  listen_at-outcome :
      (path : Str) (w : World) → w.sockets ≡ [] → ListenOutcome path w (listen_at os path w)
  unfolding listen_at open_socket close_socket without_path
  listen_at-outcome path w e = elim (Bool-cases (os.listen_fails w path)) [
    | inl a ↦ rw a (refl, refl, refl, refl, λ v. v)
    | inr a ↦ elim (Bool-cases (os.chmod_fails (open_socket path w) path)) [
      | inl b ↦ rw a (rw b (refl, refl, refl, rw e (ground (arith, str_eq_iff path path)), λ v. v))
      | inr b ↦ rw a (rw b (refl, refl, refl, refl, λ v. v))
    ]
  ]

  replace_stale-outcome :
      (path : Str) (w : World) (l : Lstat)
      → w.sockets ≡ []
      → ListenOutcome path w (replace_stale os path w l)
  unfolding replace_stale
  replace_stale-outcome path w absent e = listen_at-outcome path w e
  replace_stale-outcome path w socket e = elim (Bool-cases (os.remove_fails w path)) [
    | inl a ↦ rw a (refl, refl, refl, refl, λ v. v)
    | inr a ↦ rw a (
        logged-ListenOutcome path w _ (listen_at os path (log (stale_socket_removed path) w)) refl
          (listen_at-outcome path (log (stale_socket_removed path) w) e))
  ]
  replace_stale-outcome path w other_kind e = (refl, refl, refl, refl, λ v. v)
  replace_stale-outcome path w unreadable e = (refl, refl, refl, refl, λ v. v)

  listened-IsConsistent :
      (path : Str) (verify : Bool) (h : Host) (r : World × Option Error)
      → IsConsistent h
      → h.server ≡ none
      → ListenOutcome path h.world r
      → IsConsistent (listened path verify h r).0
  listened-IsConsistent path verify h (w, some e) v n (a, b, c, d, f) = record {
    supervised = a ∙ v.supervised;
    distinct = rw a v.distinct;
    given_out = rw (a, b) v.given_out;
    owned = λ p x. v.owned p (rw c at x);
    listening = d ∙ v.listening;
    accounted = f v.accounted;
  }
  listened-IsConsistent path verify h (w, none) v n (a, b, c, d, f) = record {
    supervised = a ∙ v.supervised;
    distinct = rw a v.distinct;
    given_out = rw (a, b) v.given_out;
    owned = λ p x. v.owned p (rw c at x);
    listening = d ∙ ap (λ (l : List Str). path ∷ l) (v.listening ∙ ap server_paths n);
    accounted = f v.accounted;
  }

  new_server-IsConsistent :
      (path : Str) (verify : Bool) (h : Host)
      → IsConsistent h
      → h.server ≡ none
      → IsConsistent (new_server os path verify h).0
  unfolding listen_protect
  new_server-IsConsistent path verify h v n =
      if-split Result-IsConsistent (str_eq path []) (λ a. v)
        (λ a.
          if-split Result-IsConsistent h.has_protector
            (λ b. listened-IsConsistent path verify h _ v n (
              replace_stale-outcome path h.world (os.lstat h.world path)
                (v.listening ∙ ap server_paths n)))
            (λ b. v))

  server_closed-IsConsistent :
      (h : Host)
      → IsConsistent h
      → IsConsistent (record h { server = none; world = close_server h.server h.world })
  server_closed-IsConsistent h v =
      let (a, b, c, d, f) = close_server-world h.server h.world v.listening in
      record {
        supervised = a ∙ v.supervised;
        distinct = rw a v.distinct;
        given_out = rw (a, b) v.given_out;
        owned = λ p x. v.owned p (rw c at x);
        listening = d;
        accounted = f v.accounted;
      }

  pub replace_server-IsConsistent :
      (path : Str) (verify : Bool) (h : Host) (o : Option Server)
      → h.server ≡ o
      → IsConsistent h
      → IsConsistent (replace_server os path verify h o).0
  replace_server-IsConsistent path verify h none e v = new_server-IsConsistent path verify h v e
  replace_server-IsConsistent path verify h (some s) e v = elim (Bool-cases (str_eq s.path path)) [
    | inl a ↦ rw a (record {
      supervised = v.supervised;
      distinct = v.distinct;
      given_out = v.given_out;
      owned = v.owned;
      listening = v.listening ∙ ap server_paths e;
      accounted = v.accounted;
    })
    | inr a ↦ rw a (
        new_server-IsConsistent path verify
          (record h { server = none; world = close_server (some s) h.world })
          (subst
            (λ (o : Option Server).
              IsConsistent (record h { server = none; world = close_server o h.world }))
            e (server_closed-IsConsistent h v))
          refl)
  ]
