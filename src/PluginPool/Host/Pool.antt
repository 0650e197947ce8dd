-- ===== src/PluginPool/Host/Pool.antt =====
-- The pool of plugins as a user of `Host` sees it: which plugins there are, in no order, and where the
-- protect server listens. The Go map of the host has no order either.
use mathlib.Core.Quot
use mathlib.Core.Quot.{Quot}
use android_lib_box_lite.Common.{
  Bool, Option, none, some, List, [], ◌∷◌, Str, str_eq, has, ◌≡◌, ◌≢◌, ap, if◌then◌else◌,
}
use android_lib_box_lite.PluginPool.Options.{Options, Spec}
use android_lib_box_lite.PluginPool.World.{Os}
use android_lib_box_lite.PluginPool.Guards.{Error, host_closed}
use android_lib_box_lite.PluginPool.Host.{
  Host, Server, close, apply, wanted_keys, protect_path_of, verify_of,
}
use android_lib_box_lite.PluginPool.Host.Extension.{keys}

abbrev pub SameKeys : List Str → List Str → Type 0
SameKeys xs ys = (k : Str) → has xs k ≡ has ys k

-- A set of keys: a list of them without its order and its repetitions.
abbrev pub KeySet : Type 0
KeySet = Quot SameKeys

abbrev pub of_list : List Str → KeySet
of_list = Quot.mk

contains : Str → KeySet → Bool
contains k = Quot.lift (hlevel) (λ xs. has xs k) λ xs ys h. h k

-- The lists of one set have the same keys.
pub of_list_exact : {xs ys : List Str} → of_list xs ≡ of_list ys → SameKeys xs ys
unfolding contains
of_list_exact e k = ap (contains k) e

pub of_list_sound : {xs ys : List Str} → SameKeys xs ys → of_list xs ≡ of_list ys
of_list_sound = Quot.sound

pub data Pool : Type 0 where
  shut : Pool
  serving : KeySet → Option Server → Pool

abbrev pub view : Host → Pool
view h = if h.closed then shut else serving (of_list (keys h.guards)) h.server

pub data Call : Type 0 where
  applies : Os → Option Options → Call
  closes : Call

abbrev pub run : (Str → Spec → Str) → Call → Host → Host × Option Error
run spec_key (applies os options) h = apply spec_key os options h
run spec_key closes h = (close h, none)

-- The hosts of a sequence of calls: the last one, and what each call answered.
unfoldable pub run_all : (Str → Spec → Str) → List Call → Host → Host × List (Call × Option Error)
run_all spec_key [] h = (h, [])
run_all spec_key (call ∷ calls) h =
    let (h', answer) = run spec_key call h in
    let (last, answers) = run_all spec_key calls h' in (last, (call, answer) ∷ answers)

-- The server that an envelope asks for.
abbrev pub server_of : Option Options → Option Server
server_of options =
    if str_eq (protect_path_of options) []
    then none
    else some (record { path = protect_path_of options; verify = verify_of options })

-- What a call does to the pool, and what it answers.
pub data Move (spec_key : Str → Spec → Str) : Pool → Call → Option Error → Pool → Type 0 where
  reloads :
      (os : Os) (options : Option Options) (plugins : KeySet) (server : Option Server)
      → Move spec_key
          (serving plugins server)
          (applies os options)
          none
          (serving (of_list (wanted_keys spec_key options)) (server_of options))
  fails :
      (os : Os) (options : Option Options) (plugins : KeySet) (server : Option Server) (e : Error)
      → e ≢ host_closed
      → Move spec_key
          (serving plugins server)
          (applies os options)
          (some e)
          (serving (of_list []) none)
  refuses :
      (os : Os) (options : Option Options)
      → Move spec_key shut (applies os options) (some host_closed) shut
  shuts : (pool : Pool) → Move spec_key pool closes none shut

pub data Moves (spec_key : Str → Spec → Str)
    : Pool → List (Call × Option Error) → Pool → Type 0 where
  stays : (pool : Pool) → Moves spec_key pool [] pool
  moves :
      {p q r : Pool} {call : Call} {answer : Option Error} {answers : List (Call × Option Error)}
      → Move spec_key p call answer q
      → Moves spec_key q answers r
      → Moves spec_key p ((call, answer) ∷ answers) r
