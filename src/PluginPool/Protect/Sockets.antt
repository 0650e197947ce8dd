-- ===== src/PluginPool/Protect/Sockets.antt =====
-- No descriptor that a plugin hands over stays open, and the reply tells the plugin the truth.
use android_lib_box_lite.Common.{ℕ, true, false, List, [], ◌∷◌, ◌≡◌, ◌⊎◌, ◌↔◌, refl, arith}
use android_lib_box_lite.PluginPool.Protect.{Request, verify_peer, collect, take_socket, handle}

-- The peer passes, or is not checked.
abbrev pub IsAdmitted : Request → Type 0
IsAdmitted r = (r.verify ≡ true) → verify_peer r ≡ true

take_socket-closed : (r : Request) (fds : List ℕ) → (take_socket r fds).closed ≡ fds
unfolding take_socket
take_socket-closed r [] = refl
take_socket-closed r (fd ∷ []) = ground arith
take_socket-closed r (fd ∷ (fd' ∷ fds)) = refl

-- Every descriptor of a message that was read from an admitted peer and parsed is closed, once and in
-- order.
pub handle-closed :
    (r : Request)
    → IsAdmitted r
    → r.was_read ≡ true
    → r.was_parsed ≡ true
    → (handle r).closed ≡ collect r.messages
unfolding handle
handle-closed r a b c = ground (arith, take_socket-closed r (collect r.messages))

take_socket_iff :
    (r : Request) (fds : List ℕ)
    → ((take_socket r fds).reply ≡ 1)
      ↔ ((fd : ℕ) × (fds ≡ fd ∷ []) × (r.truncated ≡ false) × (r.protects fd ≡ true))
unfolding take_socket
take_socket_iff r [] = (λ e. absurd (omega arith), λ (fd, e, f, g). cc)
take_socket_iff r (fd ∷ []) =
    (λ e. (fd, refl, ground arith, ground arith), λ (fd', e, f, g). ground arith)
take_socket_iff r (fd ∷ (fd' ∷ fds)) = (λ e. absurd (omega arith), λ (x, e, f, g). cc)

-- The reply is 1 exactly when the peer is admitted, the message carried one socket and nothing was cut
-- off, and the protector accepted that socket.
pub handle_reply_iff :
    (r : Request)
    → ((handle r).reply ≡ 1) ↔ (
        ((r.verify ≡ false) ⊎ (verify_peer r ≡ true))
        × (r.was_read ≡ true)
        × (r.was_parsed ≡ true)
        × ((fd : ℕ) × (collect r.messages ≡ fd ∷ [])
            × (r.truncated ≡ false)
            × (r.protects fd ≡ true)))
unfolding handle
handle_reply_iff r =
    let (sound, complete) = take_socket_iff r (collect r.messages) in
    (
      λ e.
          let taken : (take_socket r (collect r.messages)).reply ≡ 1 = ground arith in
          (ground arith, ground arith, ground arith, sound taken),
      λ (a, b, c, d). ground (arith, complete d),
    )
