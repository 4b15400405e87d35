-- ===== src/Gossip/Cars.antt =====
-- Concrete controllers for the theorems on the controller (internal/controller).
use heis_test.Prelude.{
  ℕ, ◌≤◌, ◌≡◌, ◌≢◌, ◌↔◌, refl, List, [], ◌∷◌, Bool, true, false, none, arith, inl, ◌⊎◌,
}
use heis_test.Prelude.Assoc
use heis_test.Prelude.Compare.{compare_bytes, is_lt}
use heis_test.Prelude.Int.{pos, ◌-ℤ◌}
use heis_test.Gossip.Model.Kinds.{Direction, Behavior, Button}
use heis_test.Gossip.Model.Key.{RequestKey, hall_key, cab_key}
use heis_test.Gossip.Model.Soft.{SoftState}
use heis_test.Gossip.Model.Table.{RequestCell, RequestTable, active, cell}
use heis_test.Gossip.Model.Table.Lookup.{IsTable}
use heis_test.Gossip.Cluster.Tracker.{Peer, connected}
use heis_test.Gossip.Cluster.Merge.{is_newer}
use heis_test.Gossip.Driver.{motor}
use heis_test.Gossip.Controller.State.{Config, Controller, new, set_request}
use heis_test.Gossip.Controller.Requests.{
  should_stop, assignments, can_serve, any_above, stops_for, hall, cab,
}
use heis_test.Gossip.Controller.Handlers.{handle_button, handle_floor, valid, pass_floor}
use heis_test.Gossip.Controller.Events.{button, started, handle, run, fresh, after}
use heis_test.Gossip.Controller.Safety.{IsSafe}
use heis_test.Gossip.Controller.Safety.Steps.{Reach-IsSafe}
use heis_test.Gossip.Controller.Lamps.{IsLit, Reach-IsLit}
use heis_test.Gossip.Controller.Loops.{Served, any_above_iff}
use heis_test.Gossip.Controller.Service.{set_request-is_newer}
use heis_test.Gossip.Controller.Service.Presses.{Kept, handle_button_cab, handle_button_hall}
use heis_test.Gossip.Controller.Livelock.{IsTrapped}
use heis_test.Gossip.Controller.Livelock.Ticks.{StillTrapped, ticks, ticks-trapped}
use heis_test.Gossip.Controller.Stuck.{IsStuck, handle-IsStuck, recover_without_motion}

abbrev config : Config
config = record {
  elevator_id = 1;
  boot_id = [];
  floors = pos 4;
  start_floor = pos 0;
  door_open_duration = 3_000;
  peer_timeout = 1_000;
  stuck_timeout = 5_000;
}

abbrev car : Behavior → Bool → ℕ → SoftState
car b opened f = record {
  id = 1;
  boot_id = [];
  floor = pos f;
  direction = Direction.stop;
  behavior = b;
  door_open = opened;
  obstruction = false;
}

abbrev requested : ℕ → RequestCell
requested n = record {
  active = true;
  version = record { counter = n; writer_id = 1; boot_id = [] };
}

abbrev down_call : RequestKey
down_call = hall_key (pos 1) Direction.down

abbrev cab_call : RequestKey
cab_call = cab_key 1 (pos 3)

abbrev controller : SoftState → RequestTable → List (ℕ × Peer) → Controller
controller s reqs ps = record {
  cfg = config;
  dev = [];
  clock = record { value = 2; writer = 1; boot = [] };
  reqs = reqs;
  peers = record { timeout = 1_000; peers = ps };
  car = s;
  ready = true;
  door_deadline = none;
  last_move = 0;
  travel_dir = Direction.up;
  door_dir = Direction.stop;
}

-- At floor 1 on the way up, with a cab call at floor 3, and someone at floor 1 who wants down.
abbrev calls : RequestTable
calls = (down_call, requested 1) ∷ (cab_call, requested 2) ∷ []

abbrev trapped : Controller
trapped = controller (car Behavior.door_open true 1) calls []

calls-IsTable : IsTable calls
unfolding Assoc.get?
calls-IsTable = (ground arith, (refl, tt))

trapped-IsTrapped : IsTrapped 1 3 trapped
unfolding active cell Assoc.get?
trapped-IsTrapped = record {
  caught = record {
    alone = record { table = calls-IsTable; peerless = refl; own = refl };
    here = refl;
    higher = omega arith;
    inside = omega arith;
    above = ground arith;
    down = ground arith;
    no_up = ground arith;
    no_cab = ground arith;
    upwards = refl;
  };
  opened = refl;
  parked = refl;
}

ticks-trapped_example : StillTrapped 1 3 trapped (run (ticks (3_000 ∷ 6_000 ∷ 9_000 ∷ [])) trapped)
ticks-trapped_example = ticks-trapped 1 3 (3_000 ∷ 6_000 ∷ 9_000 ∷ []) trapped trapped-IsTrapped

Reach-IsSafe_example : IsSafe (
    handle 20
      (button (record { floor = pos 2; button = Button.cab }))
      (handle 10 started (new config [] 0)))
Reach-IsSafe_example =
    Reach-IsSafe
      (after 20 (button (record { floor = pos 2; button = Button.cab })) (after 10 started fresh))

Reach-IsLit_example : IsLit (
    handle 20
      (button (record { floor = pos 2; button = Button.cab }))
      (handle 10 started (new config [] 0)))
Reach-IsLit_example =
    Reach-IsLit
      (after 20 (button (record { floor = pos 2; button = Button.cab })) (after 10 started fresh))

abbrev stuck : Controller
stuck = controller (car Behavior.stuck false 1) [] []

stuck-IsSafe : IsSafe stuck
stuck-IsSafe = record {
  car = record { door = refl; deadline = refl; halted = λ _. refl; driven = refl };
  lamp = refl;
}

handle-IsStuck_example :
    IsStuck (handle 20 (button (record { floor = pos 2; button = Button.cab })) stuck)
handle-IsStuck_example =
    handle-IsStuck 20 (button (record { floor = pos 2; button = Button.cab })) stuck refl refl

any_above_iff_example :
    (any_above trapped (pos 1) (assignments trapped) ≡ true)
    ↔ Served trapped (assignments trapped) 2 4
any_above_iff_example = any_above_iff trapped (assignments trapped) 1

-- No request: the car of `stuck` does not stop at floor 2.
goes_on :
    (let c₁ = pass_floor 30 (pos 2) stuck in
      should_stop c₁ (pos 2) c₁.car.direction (assignments c₁))
    ≡ false
unfolding pass_floor should_stop stops_for can_serve cab hall active cell Assoc.get?
goes_on = ground arith

recover_without_motion_example :
    let d = handle_floor 30 (pos 2) stuck in
    (d.car.behavior ≡ Behavior.moving)
    × (d.car.direction ≡ Direction.stop)
    × (motor d.dev ≡ Direction.stop)
recover_without_motion_example =
    recover_without_motion 30 (pos 2) stuck stuck-IsSafe refl refl goes_on

cab_valid : valid trapped Button.cab (pos 2) ≡ true
unfolding valid
cab_valid = ground arith

hall_valid : valid trapped Button.hall_up (pos 2) ≡ true
unfolding valid ◌-ℤ◌
hall_valid = ground arith

handle_button_cab_example :
    Kept
      (cab_key 1 (pos 2))
      (pos 2)
      (handle_button 20 (record { floor = pos 2; button = Button.cab }) trapped)
handle_button_cab_example = handle_button_cab 20 trapped (pos 2) refl cab_valid

handle_button_hall_example :
    ((connected trapped.peers ≡ true)
      × Kept
          (hall_key (pos 2) Direction.up)
          (pos 2)
          (handle_button 20 (record { floor = pos 2; button = Button.hall_up }) trapped))
    ⊎ ((connected trapped.peers ≡ false)
        × (handle_button 20 (record { floor = pos 2; button = Button.hall_up }) trapped ≡ trapped))
handle_button_hall_example =
    handle_button_hall 20 trapped (pos 2) Button.hall_up Direction.up (inl (refl, refl)) refl
      hall_valid

down_active : active calls down_call ≢ false
unfolding active cell Assoc.get?
down_active = ground arith

down_counter : (cell calls down_call).version.counter ≤ 2
unfolding cell Assoc.get?
down_counter = ground arith

down_boot : is_lt (compare_bytes [] (cell calls down_call).version.boot_id) ≡ false
unfolding cell Assoc.get? compare_bytes
down_boot = ground arith

set_request-is_newer_example :
    is_newer (cell (set_request down_call false trapped).reqs down_call) (cell calls down_call)
    ≡ true
set_request-is_newer_example =
    set_request-is_newer down_call false trapped down_active down_counter (omega arith) down_boot
