-- ===== src/PluginPool/Protect/Examples.antt =====
-- A request of a process that a plugin started, and the line of a process with an unusual name.
use android_lib_box_lite.Common.{
  if◌then◌else◌, ℕ, true, false, Option, none, some, List, [], ◌∷◌, ◌⊎◌, ◌↔◌, ◌≡◌, refl,
}
use android_lib_box_lite.Common.Strconv.{ℤ, pos}
use android_lib_box_lite.PluginPool.Protect.{
  same_pid, descends_within, descends, Request, verify_peer, collect, handle,
}
use android_lib_box_lite.PluginPool.Protect.Sockets.{IsAdmitted, handle_reply_iff}

-- The process 30 is a child of 20, which the core 10 started.
abbrev parent : ℤ → Option ℤ
parent pid =
    if same_pid pid (pos 30)
    then some (pos 20)
    else if same_pid pid (pos 20)
    then some (pos 10)
    else none

abbrev request : List (Option (List ℕ)) → Request
request messages = record {
  verify = true;
  peer = some (pos 30);
  is_child = λ pid. false;
  core = pos 10;
  parent = parent;
  was_read = true;
  was_parsed = true;
  messages = messages;
  truncated = false;
  protects = λ fd. true;
}

request-IsAdmitted : (messages : List (Option (List ℕ))) → IsAdmitted (request messages)
unfolding verify_peer descends descends_within
request-IsAdmitted messages = λ _. refl

abbrev one_socket : Request
one_socket = request (none ∷ (some (5 ∷ []) ∷ []))

handle_reply_iff_example : ((handle one_socket).reply ≡ 1) ↔ (
    ((one_socket.verify ≡ false) ⊎ (verify_peer one_socket ≡ true))
    × (one_socket.was_read ≡ true)
    × (one_socket.was_parsed ≡ true)
    × ((fd : ℕ) × (collect one_socket.messages ≡ fd ∷ [])
        × (one_socket.truncated ≡ false)
        × (one_socket.protects fd ≡ true)))
handle_reply_iff_example = handle_reply_iff one_socket
