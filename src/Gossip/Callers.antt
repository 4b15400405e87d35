-- ===== src/Gossip/Callers.antt =====
-- A concrete controller that hears of a hall call, and of another elevator (internal/controller).
use heis_test.Prelude.{ℕ, ◌≡◌, refl, [], ◌∷◌, true, false, some, ℕ_discrete}
use heis_test.Prelude.Assoc
use heis_test.Prelude.Sort
use heis_test.Prelude.Compare.{compare_bytes}
use heis_test.Prelude.Int.{ℤ, pos, ◌-ℤ◌, ◌+ℤ◌, abs}
use heis_test.Gossip.Model.Kinds.{Direction, Behavior}
use heis_test.Gossip.Model.Key.{RequestKey, RequestKey-discrete, hall_key, compare_key}
use heis_test.Gossip.Model.Version.{compare_version, eq_bytes}
use heis_test.Gossip.Model.Clock.{new_clock, observe}
use heis_test.Gossip.Model.Table.{cell, active, set, entries_of, active_entries, collect}
use heis_test.Gossip.Model.Soft.{SoftState, Snapshot}
use heis_test.Gossip.Cluster.Merge.{merge_entry, merge_from, merge_requests}
use heis_test.Gossip.Cluster.Tracker.{observe as see, live_states, new_peer_tracker}
use heis_test.Gossip.Assigner.{assign, assign_from, best_of, best_from, cost, cost_of, dir_to}
use heis_test.Gossip.Assigner.Best.{IsLowest, Bids}
use heis_test.Gossip.Controller.State.{Config, Controller, new, new_with, with_defaults, sync}
use heis_test.Gossip.Controller.Requests.{
  assignments, can_serve, cab, hall, next_dir, next_dir_of, nearest_dir, nearest_from,
}
use heis_test.Gossip.Controller.Motion.{rest, depart, plan}
use heis_test.Gossip.Controller.Handlers.{observe_peer, apply_remote}
use heis_test.Gossip.Controller.Events.{incoming, handle, fresh, after}
use heis_test.Gossip.Controller.Sound.{IsSound, Reach-IsSound}
use heis_test.Gossip.Controller.Sound.Assigned.{known_states, Reach-assigned}

abbrev config : Config
config = record {
  elevator_id = 1;
  boot_id = [];
  floors = pos 4;
  start_floor = pos 0;
  door_open_duration = 3_000;
  peer_timeout = 1_000;
  stuck_timeout = 5_000;
}

abbrev call : RequestKey
call = hall_key (pos 2) Direction.up

abbrev other : SoftState
other = record {
  id = 2;
  boot_id = [];
  floor = pos 2;
  direction = Direction.stop;
  behavior = Behavior.idle;
  door_open = false;
  obstruction = false;
}

abbrev heard : Snapshot
heard = record {
  soft = other;
  requests =
      record {
        key = call;
        cell = record {
          active = true;
          version = record { counter = 1; writer_id = 2; boot_id = [] };
        };
      }
      ∷ [];
}

abbrev listener : Controller
listener = handle 10 (incoming heard) (new config [] 0)

call-active : active listener.reqs call ≡ true
unfolding handle apply_remote observe_peer plan sync rest depart new new_with with_defaults see
    merge_requests merge_from merge_entry set cell active compare_version eq_bytes compare_bytes
    observe new_clock new_peer_tracker Assoc.get? Assoc.put RequestKey-discrete ℕ_discrete
    assignments can_serve cab hall next_dir next_dir_of nearest_dir nearest_from live_states assign
    assign_from best_of best_from cost cost_of dir_to active_entries entries_of collect compare_key
    Sort.sort Sort.insert ◌-ℤ◌ ◌+ℤ◌ abs
call-active = refl

Reach-IsSound_example : IsSound listener
Reach-IsSound_example = Reach-IsSound (after 10 (incoming heard) fresh)

Reach-assigned_example :
    (b : ℤ × ℕ) × (Assoc.get? RequestKey-discrete call (assignments listener) ≡ some b.1)
    × IsLowest call b (known_states listener)
    × Bids call b (known_states listener)
Reach-assigned_example = Reach-assigned call (after 10 (incoming heard) fresh) refl call-active
