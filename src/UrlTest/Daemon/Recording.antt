-- ===== src/UrlTest/Daemon/Recording.antt =====
-- What a URL test changes.
use Prim.Native.Nat.{bit_or}
use android_lib_box_lite.Common.{
  ℕ, true, Option, none, some, List, Str, str_eq, has, if◌then◌else◌, if-split, ◌≡◌, ◌↔◌, refl, ap,
}
use android_lib_box_lite.Common.Strconv.{ℤ}
use android_lib_box_lite.UrlTest.Wire.{unified_delay}
use android_lib_box_lite.UrlTest.Groups.{Outbound, Manager, IsManager, update_groups}
use android_lib_box_lite.UrlTest.Groups.Reselection.{Reselected, update_groups_decides}
use android_lib_box_lite.UrlTest.Network
use android_lib_box_lite.UrlTest.Daemon.{
  History, set_history, Instance, to, target, Tested, delay_of, error_of, recorded, flags_in,
  test_target, test_with_options,
}

-- The instance and the history afterwards, the groups that select again, and the answer, where `r` is
-- what the measurement gives and `real` is the tag that it counts for.
pub record IsRecorded (i : Instance) (m : Manager) (real : Str) (r : Network.Result ℕ)
    (history : History) (t : Tested) : Type 0 where
  pub history_after : History
  pub instance_kept : t.instance_after ≡ some (record i { history = some history_after })
  pub entries :
      (tag : Str) → history_after tag ≡ (if str_eq real tag then delay_of r else history tag)
  pub groups : List Str
  pub groups_found : t.reselected ≡ some groups
  pub groups_exact : (tag : Str) → (has groups tag ≡ true) ↔ Reselected m real m.outbounds tag
  pub answer : (t.latency ≡ delay_of r) × (t.error ≡ error_of r)

-- A test of an outbound that is found, on an instance with a context and a history, stores the latency
-- under the real tag or deletes its stale entry, leaves all other entries, makes exactly the URL test
-- groups select again that contain the real tag, and answers with the latency or the error of the
-- measurement, which is run with the flags of the request, and with unified delay too where the instance
-- asks for it.
pub test_with_options-IsRecorded :
    (real_tag : Outbound → Str) (run : Outbound → Str → ℤ → ℕ → Network.Result ℕ)
    (s : Option Instance) (tag link : Str) (timeout_ms : ℤ) (flags : ℕ) (i : Instance) (m : Manager)
    (o : Outbound) (history : History)
    → IsManager m
    → target s tag ≡ to i m o
    → i.has_context ≡ true
    → i.history ≡ some history
    → IsRecorded i m
        (real_tag o)
        (run o link timeout_ms (if i.unified then bit_or flags unified_delay else flags))
        history
        (test_with_options real_tag run s tag link timeout_ms flags)
unfolding test_with_options
test_with_options-IsRecorded real_tag run s tag link timeout_ms flags i m o history laws found live
      kept =
    let r = run o link timeout_ms (flags_in i flags) in
    let (groups, ended, exact) = update_groups_decides m (real_tag o) laws in
    rw (found, test_target)
      (if-split (IsRecorded i m (real_tag o) r history) i.has_context
        (λ _. stored i.history kept groups ended exact) (λ dead. cc (live, dead)))
  where
    stored :
        (h : Option History)
        → h ≡ some history
        → (groups : List Str) → update_groups (some m) (real_tag o) ≡ some groups
        → ((t : Str) → (has groups t ≡ true) ↔ Reselected m (real_tag o) m.outbounds t)
        → IsRecorded i m
            (real_tag o)
            (run o link timeout_ms (flags_in i flags))
            history
            (recorded i m (real_tag o) (run o link timeout_ms (flags_in i flags)) h)
    stored none e groups ended exact = cc
    stored (some h) e groups ended exact = record {
      history_after =
          set_history (real_tag o) (delay_of (run o link timeout_ms (flags_in i flags))) h;
      instance_kept = refl;
      entries = λ tag.
          let same : h ≡ history = cc in
          ap
            (λ (x : History).
              set_history (real_tag o) (delay_of (run o link timeout_ms (flags_in i flags))) x tag)
            same;
      groups = groups;
      groups_found = ended;
      groups_exact = exact;
      answer = (refl, refl);
    }
