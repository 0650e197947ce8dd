-- ===== src/SystemDns/Client.antt =====
-- native/systemdns/client_android.go: the DNS helper process and the servers that it sends. The lines of
-- its channel and what the system answers are arguments.
pub mod Following
pub mod Starting
mod Examples
use android_lib_box_lite.Common.{
  ℕ, suc, Bool, true, false, not, ◌&&◌, Option, none, some, List, [], ◌∷◌, Str, str_eq,
  if◌then◌else◌, ◌≡◌, ◌>>=◌,
}
use android_lib_box_lite.SystemDns.{Snapshot, Endpoint, decode_snapshot}
use android_lib_box_lite.SystemDns.Source.{Config, managed_servers}
use android_lib_box_lite.SystemDns.Helper

pub record Client (A : Type 0) : Type 0 where
  -- The pointer of systemconfig.
  pub managed : Option (Config A)
  -- MustParseAddrPort has panicked.
  pub panicked : Bool
  -- The ends of the socket pair, the connection, and the helper process, until the goroutine that waits for
  -- it has done so.
  pub parent_open : Bool
  pub child_open : Bool
  pub connection_open : Bool
  pub helper_runs : Bool
  -- The goroutine that reads: the snapshot it compares with, and whether it has returned.
  pub previous : List Str
  pub ended : Bool
  -- `stop` was called, and had to kill the helper.
  pub stopping : Bool
  pub killed : Bool
  -- `channelFailed`, the signals that the core has sent itself, and whether its exit is armed.
  pub channel_failed : Bool
  pub signals : ℕ
  pub exit_armed : Bool

-- The core before the start.
abbrev pub idle : {A : Type 0} → Option (Config A) → Client A
idle stored = record {
  managed = stored;
  panicked = false;
  parent_open = false;
  child_open = false;
  connection_open = false;
  helper_runs = false;
  previous = [];
  ended = false;
  stopping = false;
  killed = false;
  channel_failed = false;
  signals = 0;
  exit_armed = false;
}

pub data Error : Type 0 where
  bad_helper_file : Helper.Error → Error
  no_socketpair no_connection not_started no_snapshot : Error

-- What the start meets. `initial` is the first line, and none if it does not come in time.
pub record Start : Type 0 where
  pub is_managed : Bool
  -- The error of ensureHelper.
  pub helper_error : Option Helper.Error
  pub socketpair_fails : Bool
  pub connection_fails : Bool
  pub start_fails : Bool
  pub initial : Option Str
  -- The helper ends within 2 seconds if that start is given up.
  pub ends_in_time : Bool

pub data Started (A : Type 0) : Type 0 where
  disabled : Client A → Started A
  fails : Error → Client A → Started A
  serves : Client A → Started A

-- `ExitCode`
pub exit_code : {A : Type 0} → Client A → ℕ
exit_code c = if c.channel_failed then 70 else 0

-- The goroutine that waits for the helper: it has ended by itself.
pub helper_ended : {A : Type 0} → Client A → Client A
helper_ended c = record c { helper_runs = false }

-- `stop`, which acts once: the helper has ended, ends by itself, or is killed, and is waited for.
pub stop : {A : Type 0} → Bool → Client A → Client A
stop ends_in_time c = if c.stopping then c else record c {
  stopping = true;
  connection_open = false;
  helper_runs = false;
  killed = c.helper_runs && not ends_in_time;
}

pub same_servers : List Str → List Str → Bool
same_servers [] [] = true
same_servers [] (t ∷ ts) = false
same_servers (s ∷ ss) [] = false
same_servers (s ∷ ss) (t ∷ ts) = str_eq s t && same_servers ss ts

module _ (parse_endpoint : Str → Option Endpoint) where
  -- The loop of `update`, or none for a panic.
  pub parse_all : List Str → Option (List Endpoint)
  parse_all [] = some []
  parse_all (server ∷ servers) =
      let rest = parse_all servers in parse_endpoint server >>= λ e. rest >>= λ es. some (e ∷ es)

-- `read`: a line, or none for an error of ReadSlice, and its snapshot.
abbrev pub read : (Str → Option Endpoint) → (Str → Option Snapshot) → Option Str → Option (List Str)
read parse_endpoint decode frame = frame >>= decode_snapshot parse_endpoint decode

module _ {A : Type 0} (socksaddr : Endpoint → A) (search : List Str)
    (parse_endpoint : Str → Option Endpoint) (decode : Str → Option Snapshot) where
  abbrev stored : Option (List Endpoint) → Client A → Client A
  stored none c = record c { panicked = true }
  stored (some endpoints) c = record c {
    managed = some (managed_servers socksaddr search endpoints);
  }

  -- `update`
  pub update : List Str → Client A → Client A
  update servers c = stored (parse_all parse_endpoint servers) c

  abbrev with_snapshot : Bool → Option (List Str) → Client A → Started A
  with_snapshot ends_in_time none c = fails no_snapshot (stop ends_in_time c)
  with_snapshot ends_in_time (some servers) c =
      serves (record (update servers c) { previous = servers })

  abbrev with_process : Start → Client A → Started A
  with_process s c =
      if s.start_fails
      then fails not_started (record c { connection_open = false; child_open = false })
      else with_snapshot s.ends_in_time (read parse_endpoint decode s.initial)
          (record c { child_open = false; helper_runs = true })

  abbrev with_pair : Start → Client A → Started A
  with_pair s c =
      if s.connection_fails
      then fails no_connection (record c { parent_open = false; child_open = false })
      else with_process s (record c { parent_open = false; connection_open = true })

  abbrev with_helper : Start → Option Helper.Error → Client A → Started A
  with_helper s (some e) c = fails (bad_helper_file e) c
  with_helper s none c =
      if s.socketpair_fails
      then fails no_socketpair c
      else with_pair s (record c { parent_open = true; child_open = true })

  -- `Start`
  unfoldable pub start : Start → Client A → Started A
  start s c = if s.is_managed then with_helper s s.helper_error c else disabled c

  abbrev received : List Str → Client A → Client A
  received servers c =
      if same_servers c.previous servers
      then c
      else record (update servers c) { previous = servers }

  abbrev broken : Client A → Client A
  broken c = if c.stopping then record c { ended = true } else record (update [] c) {
    channel_failed = true;
    signals = suc c.signals;
    exit_armed = true;
    ended = true;
  }

  abbrev handled : Option (List Str) → Client A → Client A
  handled none c = broken c
  handled (some servers) c = received servers c

  -- A round of the loop that reads.
  pub handle : Option Str → Client A → Client A
  handle frame c = handled (read parse_endpoint decode frame) c

  -- The last snapshot, if that is what was read.
  abbrev latest : Option (List Str) → List Str → List Str
  latest none last = last
  latest (some servers) last = servers

  -- A client that was started, with the last snapshot that the helper has sent.
  pub data Reach : Client A → List Str → Type 0 where
    started :
        (s : Start) (before : Option (Config A)) (c : Client A) (servers : List Str)
        → start s (idle before) ≡ serves c
        → read parse_endpoint decode s.initial ≡ some servers
        → Reach c servers
    reads :
        {c : Client A} {last : List Str} (frame : Option Str)
        → Reach c last
        → c.ended ≡ false
        → Reach (handle frame c) (latest (read parse_endpoint decode frame) last)
    exits : {c : Client A} {last : List Str} → Reach c last → Reach (helper_ended c) last
    stops :
        {c : Client A} {last : List Str} (ends_in_time : Bool)
        → Reach c last
        → Reach (stop ends_in_time c) last
