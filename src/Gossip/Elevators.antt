-- ===== src/Gossip/Elevators.antt =====
-- Elevators that run together (cmd/elevator/main.go), for the theorems on the system.
use heis_test.Prelude.{
  ℕ, ◌≡◌, refl, false, List, [], ◌∷◌, ◌++◌, arith, inl, inr, member-append, member-append_left,
}
use heis_test.Prelude.{ℕ_discrete}
use heis_test.Prelude.Assoc
use heis_test.Prelude.Sort
use heis_test.Prelude.Int.{pos, ◌-ℤ◌, ◌+ℤ◌, abs}
use mathlib.Core.List.{Memᴰ}
use heis_test.Gossip.Model.Kinds.{Button}
use heis_test.Gossip.Model.Key.{RequestKey, RequestKey-discrete, cab_key, compare_key}
use heis_test.Gossip.Model.Clock.{new_clock, next, seed}
use heis_test.Gossip.Assigner.{assign, assign_from, best_of, best_from, cost, cost_of, dir_to}
use heis_test.Gossip.Cluster.Tracker.{new_peer_tracker, expire, expire_from, live_states}
use heis_test.Gossip.Model.Table.{
  new_request_table, cell, set, active, max_counter, max_counter_from, active_entries, entries_of,
  collect,
}
use heis_test.Gossip.Cluster.Node.{send}
use heis_test.Gossip.Cluster.Merge.{is_newer, merge_requests}
use heis_test.Gossip.System.Reached.{Step-never_older}
use heis_test.Gossip.Controller.State.{Config, new, new_with, with_defaults, sync, set_request}
use heis_test.Gossip.Controller.Requests.{
  assignments, can_serve, cab, hall, next_dir, next_dir_of, nearest_dir, nearest_from,
}
use heis_test.Gossip.Controller.Motion.{plan, rest, depart, door_step}
use heis_test.Gossip.Controller.Events.{handle}
use heis_test.Gossip.Controller.Handlers.{
  snapshot, enable_buttons, seed_clock_from_observed, handle_tick, tick_door, handle_button, press,
  valid,
}
use heis_test.Gossip.Process.{boot, act, publish, begin, take_input, window_over, input, button}
use heis_test.Gossip.System.{System, update, on_wire, acts, sends, Reach, booted, later}
use heis_test.Gossip.System.Converges.{
  merge_all, Reach-exchange, Reach-converges, Reach-written_once, Reach-restores,
}

abbrev pub cfgs : ℕ → Config
cfgs i = record {
  elevator_id = i;
  boot_id = 7 ∷ [];
  floors = pos 4;
  start_floor = pos 0;
  door_open_duration = 3;
  peer_timeout = 10;
  stuck_timeout = 50;
}

abbrev pub born : ℕ → ℕ
born i = i

-- Elevator 0 leaves its startup window, takes a cab call to floor 2, and sends.
abbrev asleep : System
asleep = record { processes = λ i. boot (cfgs i) (born i); packets = [] }

abbrev awake : System
awake = record asleep {
  processes = update asleep.processes 0 (act 5 window_over (asleep.processes 0));
}

abbrev pub press_two : System
press_two = record awake {
  processes =
      update awake.processes 0 (
        act 6 (input (button (record { floor = pos 2; button = Button.cab }))) (awake.processes 0));
}

abbrev pub spoken : System
spoken = record press_two {
  packets = on_wire (send (1 ∷ []) (press_two.processes 0).node) ++ press_two.packets;
}

pub spoken-Reach : Reach cfgs born 3 spoken
spoken-Reach =
    later
      (later (later booted (acts 0 5 window_over tt))
        (acts 0 6 (input (button (record { floor = pos 2; button = Button.cab }))) tt))
      (sends 0 (1 ∷ []))

abbrev two : RequestKey
two = cab_key 0 (pos 2)

Step-never_older_example :
    is_newer
      (cell (awake.processes 0).controller.reqs two)
      (cell (press_two.processes 0).controller.reqs two)
    ≡ false
Step-never_older_example =
    Step-never_older cfgs born (λ i. refl) (omega arith) (later booted (acts 0 5 window_over tt))
      (acts 0 6 (input (button (record { floor = pos 2; button = Button.cab }))) tt) 0 two

Reach-exchange_example :
    cell
      (merge_requests
        (spoken.processes 0).controller.reqs
        (spoken.processes 0).controller.clock
        (snapshot (spoken.processes 1).controller).requests).0
      two
    ≡ cell
        (merge_requests
          (spoken.processes 1).controller.reqs
          (spoken.processes 1).controller.clock
          (snapshot (spoken.processes 0).controller).requests).0
        two
Reach-exchange_example = Reach-exchange (λ i. refl) (omega arith) spoken-Reach 0 1 two

halves {ℓ} : {A : Type ℓ} {x : A} (xs : List A) → Memᴰ x (xs ++ xs) → Memᴰ x xs
halves xs m = elim (member-append xs m) [ inl n ↦ n | inr n ↦ n ]

-- Each packet once, and each packet twice.
Reach-converges_example :
    cell
      (merge_all
        (spoken.processes 1).controller.reqs
        (spoken.processes 1).controller.clock
        spoken.packets)
      two
    ≡ cell
        (merge_all
          (spoken.processes 1).controller.reqs
          (spoken.processes 1).controller.clock
          (spoken.packets ++ spoken.packets))
        two
Reach-converges_example =
    Reach-converges (λ i. refl) (omega arith) spoken-Reach 1 1 two spoken.packets
      (spoken.packets ++ spoken.packets) refl (λ p m. m)
      (λ p m. member-append_left spoken.packets m) (λ p m. halves spoken.packets m)

two_written : (cell (spoken.processes 0).controller.reqs two).version.counter ≡ 1
unfolding act publish begin take_input boot handle handle_tick tick_door door_step expire
    expire_from handle_button press valid enable_buttons seed_clock_from_observed seed max_counter
    max_counter_from plan sync rest depart new new_with with_defaults set_request next set cell
    active new_clock new_peer_tracker Assoc.get? Assoc.put RequestKey-discrete ℕ_discrete
    assignments can_serve cab hall next_dir next_dir_of nearest_dir nearest_from live_states assign
    assign_from best_of best_from cost cost_of dir_to active_entries entries_of collect compare_key
    Sort.sort Sort.insert ◌-ℤ◌ ◌+ℤ◌ abs
two_written = refl

Reach-written_once_example :
    (two ≡ two)
    × (cell (spoken.processes 0).controller.reqs two
        ≡ cell (spoken.processes 0).controller.reqs two)
Reach-written_once_example =
    Reach-written_once (λ i. refl) (omega arith) spoken-Reach 0 0 two two
      (omega (arith, two_written)) refl

-- A fresh elevator that merges what elevator 0 says.
Reach-restores_example :
    cell
      (merge_requests new_request_table
        (new_clock 5 [])
        (snapshot (spoken.processes 0).controller).requests).0
      two
    ≡ cell (spoken.processes 0).controller.reqs two
Reach-restores_example =
    Reach-restores (λ i. refl) (omega arith) spoken-Reach 0 (new_clock 5 []) two
