-- ===== src/Gossip/Meeting.antt =====
-- Two elevators that hear each other (cmd/elevator/main.go), for the theorem on what they assign.
use heis_test.Prelude.{[], ◌∷◌, All, false, ℕ, ◌≡◌, refl, arith, ℕ_discrete}
use heis_test.Prelude.Assoc
use heis_test.Prelude.Sort
use heis_test.Prelude.Int.{pos, ◌-ℤ◌, ◌+ℤ◌, abs}
use mathlib.Core.List.{Memᴰ}
use heis_test.Gossip.Model.Kinds.{Button, Direction, direction}
use heis_test.Gossip.Model.Soft.{Snapshot}
use heis_test.Gossip.Model.Key.{RequestKey, RequestKey-discrete, hall_key, compare_key}
use heis_test.Gossip.Cluster.Node.{send, set_local, receive, decoded, start}
use heis_test.Gossip.Controller.State.{Controller, new, new_with, with_defaults, sync, set_request}
use heis_test.Gossip.Controller.Requests.{assignments}
use heis_test.Gossip.Controller.Handlers.{snapshot}
use heis_test.Gossip.Controller.Sound.Assigned.{known_states}
use heis_test.Gossip.Assigner.Agreement.{Includes}
use heis_test.Gossip.Process.{
  boot, act, publish, begin, take_input, window_over, input, button, read, incoming, Action, Input,
}
use heis_test.Gossip.System.{System, update, on_wire, acts, Reach, later}
use heis_test.Gossip.System.Delivers.{Reach-delivers}
use heis_test.Gossip.Cluster.Merge.{is_newer}
use heis_test.Gossip.System.Agrees.{hear, Reach-hear_agrees}
use heis_test.Gossip.Model.Clock
use heis_test.Gossip.Model.Clock.{new_clock, next, seed}
use heis_test.Gossip.Model.Version.{compare_version, eq_bytes}
use heis_test.Gossip.Model.Soft.{SoftState-discrete}
use heis_test.Gossip.Cluster.Merge.{merge_requests, merge_from, merge_entry}
use heis_test.Gossip.Process.{take_incoming, take_from}
use heis_test.Gossip.Assigner.{assign, assign_from, best_of, best_from, cost, cost_of, dir_to}
use heis_test.Gossip.Cluster.Tracker.{
  new_peer_tracker, expire, expire_from, live_states, observe, connected,
}
use heis_test.Gossip.Model.Table.{
  cell, set, active, max_counter, max_counter_from, active_entries, entries, entries_of, collect,
}
use heis_test.Gossip.Controller.Requests.{
  can_serve, cab, hall, next_dir, next_dir_of, nearest_dir, nearest_from,
}
use heis_test.Gossip.Controller.Motion.{plan, rest, depart, door_step}
use heis_test.Gossip.Controller.Events.{handle}
use heis_test.Gossip.Controller.Handlers.{
  enable_buttons, seed_clock_from_observed, handle_tick, tick_door, handle_button, press, valid,
  apply_remote, observe_peer,
}
use heis_test.Gossip.Elevators.{cfgs, born, press_two, spoken, spoken-Reach}

-- What elevator 0 has said.
abbrev said : Snapshot
said = snapshot (press_two.processes 0).controller

said_carried : Memᴰ said spoken.packets
unfolding on_wire send act take_input publish set_local begin boot ℕ_discrete
said_carried = Memᴰ.head refl

-- Elevator 1 reads it, leaves its startup window, takes it from the channel, and someone at floor 1
-- wants up.
abbrev step : ℕ → Action → System → System
step now a s = record s { processes = update s.processes 1 (act now a (s.processes 1)) }

abbrev call : Input
call = button (record { floor = pos 1; button = Button.hall_up })

abbrev listened : System
listened = step 8 window_over (step 7 (read (decoded said)) spoken)

listened-Reach : Reach cfgs born 5 listened
listened-Reach =
    later (later spoken-Reach (acts 1 7 (read (decoded said)) said_carried))
      (acts 1 8 window_over tt)

listened_incoming : (listened.processes 1).node.incoming ≡ said ∷ []
unfolding act begin boot publish set_local receive start ℕ_discrete
listened_incoming = refl

Reach-delivers_example :
    All
      (λ e.
        is_newer e.cell (cell (act 9 incoming (listened.processes 1)).controller.reqs e.key)
        ≡ false)
      said.requests
Reach-delivers_example =
    Reach-delivers (λ i. refl) (omega arith) listened-Reach 1 9 said [] listened_incoming

abbrev called : System
called = step 10 (input call) (step 9 incoming listened)

called-Reach : Reach cfgs born 7 called
called-Reach = later (later listened-Reach (acts 1 9 incoming tt)) (acts 1 10 (input call) tt)

abbrev of_zero : Controller
of_zero = hear 11 (snapshot (called.processes 1).controller) (called.processes 0).controller

abbrev of_one : Controller
of_one = hear 12 (snapshot (called.processes 0).controller) (called.processes 1).controller

alike :
    Includes (known_states of_zero) (known_states of_one)
    × Includes (known_states of_one) (known_states of_zero)
unfolding hear observe_peer snapshot act publish set_local receive start begin take_input boot
    take_incoming take_from apply_remote merge_requests merge_from merge_entry compare_version
    observe Clock.observe handle handle_tick tick_door door_step expire expire_from handle_button
    press valid enable_buttons seed_clock_from_observed seed max_counter max_counter_from plan sync
    rest depart new new_with with_defaults set_request next set cell active new_clock
    new_peer_tracker Assoc.get? Assoc.put RequestKey-discrete ℕ_discrete assignments can_serve cab
    hall next_dir next_dir_of nearest_dir nearest_from live_states assign assign_from best_of
    best_from cost cost_of dir_to active_entries entries_of entries collect compare_key Sort.sort
    Sort.insert ◌-ℤ◌ ◌+ℤ◌ abs SoftState-discrete eq_bytes connected direction
alike = (
  (Memᴰ.tail (Memᴰ.head refl), (Memᴰ.head refl, tt)),
  (Memᴰ.tail (Memᴰ.head refl), (Memᴰ.head refl, tt)),
)

abbrev floor_one : RequestKey
floor_one = hall_key (pos 1) Direction.up

Reach-hear_agrees_example :
    Assoc.get? RequestKey-discrete floor_one (assignments of_zero)
    ≡ Assoc.get? RequestKey-discrete floor_one (assignments of_one)
Reach-hear_agrees_example =
    Reach-hear_agrees (λ i. refl) (omega arith) called-Reach 0 1 11 12 floor_one alike.0 alike.1
