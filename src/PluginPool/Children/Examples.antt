-- ===== src/PluginPool/Children/Examples.antt =====
-- A plugin that runs asks for a socket to be protected, while a second one is being started.
use android_lib_box_lite.Common.{◌⊎◌, true, false, none, some, [], ◌∷◌, ◌≡◌, refl}
use android_lib_box_lite.Common.Strconv.{ℤ, pos}
use android_lib_box_lite.PluginPool.Protect.{Request, handle, verify_peer, take_socket, collect}
use android_lib_box_lite.PluginPool.StopRace.{fork, attaches, stores, attach, store_child}
use android_lib_box_lite.PluginPool.Children.{
  Crew, new_crew, act, children_after, CrewReach, unmoved, moved, acts,
}
use android_lib_box_lite.PluginPool.Children.Peers.{IsPlugin, Descends, handle-IsPlugin}

abbrev forked_crew : Crew
forked_crew = act new_crew 0 (fork 7 refl)

abbrev attached_crew : Crew
unfolding attach
attached_crew = act forked_crew 0 (attaches 7 refl)

abbrev running_crew : Crew
unfolding attach
running_crew = act attached_crew 0 (stores 7 false refl)

abbrev busy_crew : Crew
unfolding attach store_child
busy_crew = act running_crew 1 (fork 9 refl)

busy_crew_reached : CrewReach new_crew busy_crew
unfolding attach store_child
busy_crew_reached =
    moved
      (moved (moved (moved unmoved (acts 0 (fork 7 refl))) (acts 0 (attaches 7 refl)))
        (acts 0 (stores 7 false refl)))
      (acts 1 (fork 9 refl))

abbrev asking : Request
asking = record {
  verify = true;
  peer = some (pos 7);
  is_child = λ pid. false;
  core = pos 5;
  parent = λ pid. none;
  was_read = true;
  was_parsed = true;
  messages = some (3 ∷ []) ∷ [];
  truncated = false;
  protects = λ fd. true;
}

handle-IsPlugin_example :
    (peer : ℤ) × (asking.peer ≡ some peer) × (IsPlugin busy_crew peer ⊎ Descends asking peer)
unfolding handle verify_peer take_socket collect children_after attach store_child
handle-IsPlugin_example = handle-IsPlugin busy_crew asking 3 busy_crew_reached refl refl
