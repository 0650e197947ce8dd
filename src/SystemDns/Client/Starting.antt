-- ===== src/SystemDns/Client/Starting.antt =====
-- The start of the DNS helper, and all that may follow.
use android_lib_box_lite.Common.{
  true, false, Option, none, some, List, Str, ◌≡◌, refl, sym, subst, if-split,
}
use android_lib_box_lite.SystemDns.{Snapshot, Endpoint}
use android_lib_box_lite.SystemDns.Source.{Config}
use android_lib_box_lite.SystemDns.Helper
use android_lib_box_lite.SystemDns.Client.{
  bad_helper_file, no_socketpair, no_connection, not_started, no_snapshot, Error, Client, idle,
  Start, Started, disabled, fails, serves, stop, read, with_snapshot, with_helper, start, handle,
  Reach, started, reads, exits, stops,
}
use android_lib_box_lite.SystemDns.Client.Following.{
  IsParser, IsReleased, Fits, read-parse_all, updated-Publishes, handled-Fits, helper_ended-Fits,
  stop-Fits,
}

module _ {A : Type 0} (socksaddr : Endpoint → A) (search : List Str)
    (parse_endpoint : Str → Option Endpoint) (decode : Str → Option Snapshot) where
  -- Why a start fails.
  abbrev pub IsCause : Start → Error → Type 0
  IsCause s (bad_helper_file e) = s.helper_error ≡ some e
  IsCause s no_socketpair = s.socketpair_fails ≡ true
  IsCause s no_connection = s.connection_fails ≡ true
  IsCause s not_started = s.start_fails ≡ true
  IsCause s no_snapshot = read parse_endpoint decode s.initial ≡ none

  -- What a start comes to: it is not asked for and changes nothing, it fails and leaves no socket, no
  -- process and no new configuration, or it goes on with the endpoints of the first snapshot.
  abbrev pub StartFits : Option (Config A) → Start → Started A → Type 0
  StartFits before s (disabled c) = (s.is_managed ≡ false) × (c ≡ idle before)
  StartFits before s (fails e c) =
      IsCause s e × IsReleased c × (c.managed ≡ before) × (c.panicked ≡ false) × (c.signals ≡ 0)
  StartFits before s (serves c) =
      (servers : List Str) × (read parse_endpoint decode s.initial ≡ some servers)
      × Fits socksaddr search parse_endpoint decode servers c

  module _ (laws : IsParser parse_endpoint) where
    with_snapshot-Fits :
        (s : Start) (before : Option (Config A)) (r : Option (List Str))
        → read parse_endpoint decode s.initial ≡ r
        → StartFits before s (
            with_snapshot socksaddr search parse_endpoint decode s.ends_in_time r
              (record (idle before) { connection_open = true; helper_runs = true }))
    unfolding stop
    with_snapshot-Fits s before none e = (e, (refl, refl, refl, refl), refl, refl, refl)
    with_snapshot-Fits s before (some servers) e =
        let (endpoints, parsed) =
          read-parse_all socksaddr search parse_endpoint decode laws s.initial e in
        let c = record (idle before) { connection_open = true; helper_runs = true } in
        (
          servers,
          e,
          subst
              (λ (x : Client A).
                Fits socksaddr search parse_endpoint decode servers
                  (record x { previous = servers }))
              (sym (
                updated-Publishes socksaddr search parse_endpoint decode laws servers endpoints c
                  parsed))
              (refl, ((endpoints, parsed, refl), refl, refl, refl), (refl, refl, refl, λ e. cc)),
        )

    with_helper-Fits :
        (s : Start) (before : Option (Config A)) (o : Option Helper.Error)
        → s.helper_error ≡ o
        → StartFits before s (with_helper socksaddr search parse_endpoint decode s o (idle before))
    with_helper-Fits s before (some e) given = (given, (refl, refl, refl, refl), refl, refl, refl)
    with_helper-Fits s before none given =
        let P : Started A → Type 0 = StartFits before s in
        if-split P s.socketpair_fails (λ down. (down, (refl, refl, refl, refl), refl, refl, refl))
          (λ _.
            if-split P s.connection_fails
              (λ down. (down, (refl, refl, refl, refl), refl, refl, refl))
              (λ _.
                if-split P s.start_fails
                  (λ down. (down, (refl, refl, refl, refl), refl, refl, refl))
                  (λ _. with_snapshot-Fits s before (read parse_endpoint decode s.initial) refl)))

    started-Fits :
        (s : Start) (before : Option (Config A))
        → StartFits before s (start socksaddr search parse_endpoint decode s (idle before))
    unfolding start
    started-Fits s before =
        if-split (StartFits before s) s.is_managed
          (λ _. with_helper-Fits s before s.helper_error refl) (λ off. (off, refl))

    served-Fits :
        (s : Start) (before : Option (Config A)) (servers : List Str) (r : Started A) (c : Client A)
        → r ≡ serves c
        → read parse_endpoint decode s.initial ≡ some servers
        → StartFits before s r
        → Fits socksaddr search parse_endpoint decode servers c
    served-Fits s before servers (disabled _) c e given fits = cc (e)
    served-Fits s before servers (fails _ _) c e given fits = cc (e)
    served-Fits s before servers (serves c') c e given (servers', given', fits) =
        let same : servers' ≡ servers = cc (given, given') in
        let equal : c' ≡ c = cc (e) in
        subst (λ (l : List Str). Fits socksaddr search parse_endpoint decode l c) same
          (subst (λ (x : Client A). Fits socksaddr search parse_endpoint decode servers' x) equal
            fits)

    reached-Fits :
        {c : Client A} {last : List Str}
        → Reach socksaddr search parse_endpoint decode c last
        → Fits socksaddr search parse_endpoint decode last c
    unfolding handle
    reached-Fits (started s before c servers e given) =
        served-Fits s before servers (start socksaddr search parse_endpoint decode s (idle before))
          c e given (started-Fits s before)
    reached-Fits {c} {last} (reads {c = c'} {last = last'} frame r alive) =
        handled-Fits socksaddr search parse_endpoint decode laws frame last' c'
          (read parse_endpoint decode frame) refl alive (reached-Fits r)
    reached-Fits (exits {c = c'} {last = last'} r) =
        helper_ended-Fits socksaddr search parse_endpoint decode laws last' c' (reached-Fits r)
    reached-Fits (stops {c = c'} {last = last'} ends_in_time r) =
        stop-Fits socksaddr search parse_endpoint decode laws ends_in_time last' c' (reached-Fits r)

-- A start of the helper is not asked for and changes nothing, fails and leaves no socket, no helper process
-- and the configuration that was there, or succeeds with the endpoints of the first snapshot published. It
-- fails only for the cause that its error names: the helper file, the socket pair, the connection, the
-- process, or a first line that is no snapshot. In no case does MustParseAddrPort panic.
pub start-Fits :
    {A : Type 0} (socksaddr : Endpoint → A) (search : List Str)
    (parse_endpoint : Str → Option Endpoint) (decode : Str → Option Snapshot) (s : Start)
    (before : Option (Config A))
    → IsParser parse_endpoint
    → StartFits socksaddr search parse_endpoint decode before s
        (start socksaddr search parse_endpoint decode s (idle before))
start-Fits socksaddr search parse_endpoint decode s before laws =
    started-Fits socksaddr search parse_endpoint decode laws s before

-- Whatever lines, broken lines, calls of stop and an end of the helper by itself have followed a start:
-- MustParseAddrPort has not panicked. While the channel has not failed, the endpoints of the last snapshot
-- are published; once it has, none are, the loop has ended, and the core has signalled itself once. The
-- connection is open until stop is called; from then on no socket and no helper process is there.
pub Reach-Fits :
    {A : Type 0} (socksaddr : Endpoint → A) (search : List Str)
    (parse_endpoint : Str → Option Endpoint) (decode : Str → Option Snapshot) (c : Client A)
    (last : List Str)
    → IsParser parse_endpoint
    → Reach socksaddr search parse_endpoint decode c last
    → Fits socksaddr search parse_endpoint decode last c
Reach-Fits socksaddr search parse_endpoint decode c last laws r =
    reached-Fits socksaddr search parse_endpoint decode laws r
