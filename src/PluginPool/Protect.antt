-- ===== src/PluginPool/Protect.antt =====
-- The requests of the protect protocol (native/pluginpool/protect.go): a peer is checked, one socket
-- is received and protected, and one byte answers.
pub mod Ancestry
pub mod Sockets
mod Examples
use android_lib_box_lite.Common.{
  ℕ, zero, suc, Bool, true, false, ◌&&◌, ◌||◌, Option, none, some, List, [], ◌∷◌, ◌++◌, Str, str_eq,
  leb, ◌==◌, if◌then◌else◌, ◌>>=◌,
}
use android_lib_box_lite.Common.Strconv.{ℤ, pos, negsuc, parse_int}

abbrev pub max_ancestry : ℕ
max_ancestry = 32

abbrev pub same_pid : ℤ → ℤ → Bool
same_pid (pos m) (pos n) = m == n
same_pid (negsuc m) (negsuc n) = m == n
same_pid (pos m) (negsuc n) = false
same_pid (negsuc m) (pos n) = false

-- `pid <= 1`
abbrev pub is_root_pid : ℤ → Bool
is_root_pid (pos n) = leb n 1
is_root_pid (negsuc n) = true

-- The bytes behind the last `c` (bytes.LastIndexByte).
pub after_last : ℕ → Str → Option Str
after_last c [] = none
after_last c (d ∷ s) = elim (after_last c s) [
  | some rest ↦ some rest
  | none ↦ if d == c then some s else none
]

-- The ASCII white space of bytes.Fields.
pub is_space : ℕ → Bool
is_space c = (leb 9 c && leb c 13) || c == 32

-- bytes.Fields behind the part `word` of a field. What /proc writes behind the last ')' is ASCII.
pub fields_from : Str → Str → List Str
unfolding is_space
fields_from [] [] = []
fields_from (c ∷ word) [] = (c ∷ word) ∷ []
fields_from word (c ∷ s) =
    let rest = fields_from (if is_space c then [] else word ++ (c ∷ [])) s in
    if is_space c && (if str_eq word [] then false else true) then word ∷ rest else rest

abbrev second_field : List Str → Option Str
second_field [] = none
second_field (state ∷ []) = none
second_field (state ∷ (parent ∷ fields)) = some parent

-- What `parentOf` makes of the content of /proc/<pid>/stat.
pub parse_stat : Str → Option ℤ
parse_stat stat = do
  rest ← after_last b')' stat
  parent ← second_field (fields_from [] rest)
  parse_int parent 64

-- `parentOf`; the argument is what os.ReadFile gives for a process.
pub parent_of : (ℤ → Option Str) → ℤ → Option ℤ
parent_of read_stat pid = read_stat pid >>= parse_stat

-- The loop of `descends`, with the rounds that are left.
pub descends_within : (ℤ → Option ℤ) → ℕ → ℤ → ℤ → Bool
descends_within parent zero pid ancestor = false
descends_within parent (suc rounds) pid ancestor =
    let above : Bool = elim (parent pid) [
      | none ↦ false
      | some pid' ↦ descends_within parent rounds pid' ancestor
    ] in
    if same_pid pid ancestor then true else if is_root_pid pid then false else above

pub descends : (ℤ → Option ℤ) → ℤ → ℤ → Bool
descends parent pid ancestor = descends_within parent max_ancestry pid ancestor

-- What the connection and the system answer to one request.
pub record Request : Type 0 where
  -- The flag of the server, and the peer's process by its credentials.
  pub verify : Bool
  pub peer : Option ℤ
  pub is_child : ℤ → Bool
  pub core : ℤ
  pub parent : ℤ → Option ℤ
  -- The message: whether it was read and its control part parsed, the descriptors of each control
  -- message (none if it carries no rights), and the flag MSG_CTRUNC.
  pub was_read : Bool
  pub was_parsed : Bool
  pub messages : List (Option (List ℕ))
  pub truncated : Bool
  -- The protector's answer for a descriptor.
  pub protects : ℕ → Bool

-- `verifyPeer`
unfoldable pub verify_peer : Request → Bool
verify_peer r = elim r.peer [
  | none ↦ false
  | some pid ↦ r.is_child pid || descends r.parent pid r.core
]

-- The loop that collects the descriptors.
unfoldable pub collect : List (Option (List ℕ)) → List ℕ
collect [] = []
collect (none ∷ messages) = collect messages
collect (some fds ∷ messages) = fds ++ collect messages

pub record Handled : Type 0 where
  -- The descriptors closed, in order, and the one that the protector was called for.
  pub closed : List ℕ
  pub asked : Option ℕ
  pub reply : ℕ

abbrev rejected : List ℕ → Handled
rejected closed = record { closed = closed; asked = none; reply = 0 }

-- The last part of `receiveSocket`, and what `protect` does with the descriptor.
unfoldable pub take_socket : Request → List ℕ → Handled
take_socket r [] = rejected []
take_socket r (fd ∷ []) =
    if r.truncated
    then rejected (fd ∷ [])
    else record { closed = fd ∷ []; asked = some fd; reply = if r.protects fd then 1 else 0 }
take_socket r (fd ∷ (fd' ∷ fds)) = rejected (fd ∷ (fd' ∷ fds))

abbrev receive_socket : Request → Handled
receive_socket r =
    if r.was_read && r.was_parsed then take_socket r (collect r.messages) else rejected []

-- `handle` with `protect`.
unfoldable pub handle : Request → Handled
handle r =
    if r.verify then (if verify_peer r then receive_socket r else rejected []) else receive_socket r

-- What AcceptUnix answers: a connection with its request, an error, or that the listener is closed.
pub data Accept : Type 0 where
  connection : Request → Accept
  accept_fails : Accept
  listener_closed : Accept

-- The handlers that a server starts, in order, the pauses of 100 ms after errors, and whether it has
-- returned.
pub record Served : Type 0 where
  pub handled : List Handled
  pub pauses : ℕ
  pub returned : Bool

-- `serve`, on as many calls of AcceptUnix.
pub serve : List Accept → Served
serve [] = record { handled = []; pauses = 0; returned = false }
serve (listener_closed ∷ accepts) = record { handled = []; pauses = 0; returned = true }
serve (accept_fails ∷ accepts) =
    let rest = serve accepts in record rest { pauses = suc rest.pauses }
serve (connection r ∷ accepts) =
    let rest = serve accepts in record rest { handled = handle r ∷ rest.handled }
