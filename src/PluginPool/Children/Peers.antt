-- ===== src/PluginPool/Children/Peers.antt =====
-- Who passes `verifyPeer`, whatever the guards of the host are doing.
use android_lib_box_lite.Common.{
  ℕ, Bool, true, ◌||◌, ◌==◌, ==_iff, some, ◌≡◌, ◌⊎◌, inl, inr, refl, ap, ◌∙◌, ◌<◌, arith,
  Bool-cases, Option-cases, if-split,
}
use android_lib_box_lite.Common.Strconv.{ℤ, pos, negsuc}
use android_lib_box_lite.PluginPool.Protect.{Request, max_ancestry, verify_peer, handle, descends}
use android_lib_box_lite.PluginPool.Protect.Ancestry.{Ancestor, descends_iff}
use android_lib_box_lite.PluginPool.StopRace.{
  Guard, must_kill, waiting, reaped, new_guard, Step, start_fails, fork, attaches, stores, kills,
  exits, deletes, detaches, checks, gives_up, timer_fires, sees_stop, requests_stop, kill_timer,
  stops_timer, attach, store_child, delete_child, kill_attached, detach, check_stopping,
  request_stop, fire_timer, stop_timer, Reach, here, next,
}
use android_lib_box_lite.PluginPool.StopRace.Safety.{Inv, Reach-Inv, child_iff}
use android_lib_box_lite.PluginPool.Children.{
  Crew, set_at, children_after, CrewStep, acts, CrewReach, unmoved, moved, new_crew, is_child, act,
}

-- What a step of a guard does to its own entry and to the map.
abbrev Owned : {g g' : Guard} → Step g g' → (ℕ → Bool) → ℕ → Type 0
Owned {g} {g'} s children pid =
    ((children pid ≡ true) × (g.child ≡ some pid → g'.child ≡ some pid)) ⊎ (g'.child ≡ some pid)

Step-Owned :
    {g g' : Guard} (s : Step g g') (children : ℕ → Bool) (pid : ℕ)
    → Inv g
    → children_after s children pid ≡ true
    → Owned s children pid
unfolding children_after attach store_child delete_child kill_attached detach check_stopping
    request_stop fire_timer stop_timer
Step-Owned (stores x stopping e) children pid v h = elim (Bool-cases (x == pid)) [
  | inl same ↦ inr (ap some ((==_iff x pid).0 same))
  | inr other ↦ inl (ground arith, λ k. ground (arith, v.known))
]
Step-Owned (deletes x e) children pid v h = elim (Bool-cases (x == pid)) [
  | inl same ↦ absurd (ground arith)
  | inr other ↦ inl (ground arith, λ k. ground (arith, v.known))
]
Step-Owned (start_fails e) children pid v h = inl (h, λ k. k)
Step-Owned (fork x e) children pid v h = inl (h, λ k. k)
Step-Owned (attaches x e) children pid v h = inl (h, λ k. k)
Step-Owned (kills x e) children pid v h = inl (h, λ k. k)
Step-Owned (exits x e) children pid v h = inl (h, λ k. k)
Step-Owned (detaches x e) children pid v h = inl (h, λ k. k)
Step-Owned (checks e) children pid v h = inl (h, λ k. k)
Step-Owned (gives_up e) children pid v h = inl (h, λ k. k)
Step-Owned (timer_fires e) children pid v h = inl (h, λ k. k)
Step-Owned (sees_stop e f) children pid v h = inl (h, λ k. k)
Step-Owned requests_stop children pid v h = inl (h, λ k. ground arith)
Step-Owned (kill_timer e) children pid v h = inl (h, λ k. ground arith)
Step-Owned stops_timer children pid v h = inl (h, λ k. k)

record CrewInv (c : Crew) : Type 0 where
  -- Every guard has a life of its own.
  alive : (i : ℕ) → Reach new_guard (c.guards i)
  -- Every process in the map is that of a guard.
  owned : (pid : ℕ) → c.children pid ≡ true → (i : ℕ) × ((c.guards i).child ≡ some pid)

act-CrewInv :
    (c : Crew) (i : ℕ) {g : Guard} (s : Step (c.guards i) g) → CrewInv c → CrewInv (act c i s)
act-CrewInv c i {g} s v = record {
  alive = λ j.
      if-split (λ (x : Guard). Reach new_guard x) (i == j) (λ _. next (v.alive i) s)
        (λ _. v.alive j);
  owned = λ pid h. owner pid (Step-Owned s c.children pid (Reach-Inv (v.alive i)) h);
}
  where
    at_own : set_at i g c.guards i ≡ g
    at_own = if-split (λ (x : Guard). x ≡ g) (i == i) (λ _. refl) (λ n. absurd (ground arith))

    owner :
        (pid : ℕ) → Owned s c.children pid → (j : ℕ) × ((set_at i g c.guards j).child ≡ some pid)
    owner pid (inr h) = (i, ap (λ (x : Guard). x.child) at_own ∙ h)
    owner pid (inl (h, keep)) =
        let (j, k) = v.owned pid h in
        elim (Bool-cases (i == j)) [
          | inl e ↦
              let same : i ≡ j = (==_iff i j).0 e in
              (
                i,
                ap (λ (x : Guard). x.child) at_own
                    ∙ keep (ap (λ (l : ℕ). (c.guards l).child) same ∙ k),
              )
          | inr e ↦ (j, rw e k)
        ]

crew-CrewInv : {c : Crew} → CrewReach new_crew c → CrewInv c
crew-CrewInv unmoved = record { alive = λ i. here; owned = λ pid h. cc }
crew-CrewInv (moved r step) = stepped step (crew-CrewInv r)
  where
    stepped : {d e : Crew} → CrewStep d e → CrewInv d → CrewInv e
    stepped {d} (acts i s) v = act-CrewInv d i s v

-- The process of a plugin of the host, from children.Store to children.Delete.
abbrev pub IsPlugin : Crew → ℤ → Type 0
IsPlugin c peer =
    (pid : ℕ) × (i : ℕ) × (peer ≡ pos pid)
    × (((c.guards i).place ≡ must_kill pid)
        ⊎ ((c.guards i).place ≡ waiting pid)
        ⊎ ((c.guards i).place ≡ reaped pid))

-- The core is among the first 31 ancestors of the peer, or is the peer.
abbrev pub Descends : Request → ℤ → Type 0
Descends r peer = (n : ℕ) × (n < max_ancestry) × Ancestor r.parent r.core n peer

-- The request as the host `c` sees it.
abbrev pub seen_by : Crew → Request → Request
seen_by c r = record r { is_child = is_child c }

is_child-IsPlugin :
    (c : Crew) (peer : ℤ) → CrewReach new_crew c → is_child c peer ≡ true → IsPlugin c peer
is_child-IsPlugin c (pos pid) reach e =
    let v = crew-CrewInv reach in
    let (i, own) = v.owned pid e in (pid, i, refl, (child_iff (c.guards i) pid (v.alive i)).0 own)
is_child-IsPlugin c (negsuc n) reach e = cc

verify_peer_sound :
    (c : Crew) (r : Request)
    → CrewReach new_crew c
    → verify_peer (seen_by c r) ≡ true
    → (peer : ℤ) × (r.peer ≡ some peer) × (IsPlugin c peer ⊎ Descends r peer)
unfolding verify_peer
verify_peer_sound c r reach e = elim (Option-cases r.peer) [
  | inl n ↦ cc (rw n at e)
  | inr (peer, n) ↦
      let passed : (is_child c peer || descends r.parent peer r.core) ≡ true = rw n at e in
      elim (Bool-cases (is_child c peer)) [
        | inl k ↦ (peer, n, inl (is_child-IsPlugin c peer reach k))
        | inr k ↦ (peer, n, inr ((descends_iff r.parent peer r.core).0 (rw k at passed)))
      ]
]

-- Whatever the guards of the host are doing, a server that verifies its peers calls the protector only for
-- a socket that comes from the process of a plugin, which a guard has stored and not yet deleted, or from a
-- process with the core among its first 31 ancestors.
pub handle-IsPlugin :
    (c : Crew) (r : Request) (fd : ℕ)
    → CrewReach new_crew c
    → r.verify ≡ true
    → (handle (seen_by c r)).asked ≡ some fd
    → (peer : ℤ) × (r.peer ≡ some peer) × (IsPlugin c peer ⊎ Descends r peer)
unfolding handle
handle-IsPlugin c r fd reach verified called = elim (Bool-cases (verify_peer (seen_by c r))) [
  | inl e ↦ verify_peer_sound c r reach e
  | inr e ↦ absurd (ground (arith, verified, e, called))
]
