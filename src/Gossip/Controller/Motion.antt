-- ===== src/Gossip/Controller/Motion.antt =====
-- internal/controller/controller.go: `open`, `plan` and `doorStep`.
use heis_test.Prelude.{
  ℕ, ◌+◌, ◌∷◌, Bool, true, false, not, ◌||◌, Option, none, some, ltb, if◌then◌else◌,
}
use heis_test.Gossip.Model.Kinds.{Direction, Behavior, eq_direction, is_door_open, is_stuck}
use heis_test.Gossip.Driver.{set_motor_direction, set_door_open_lamp}
use heis_test.Gossip.Controller.State.{Controller, sync, clear_floor}
use heis_test.Gossip.Controller.Requests.{
  assignments, can_serve, next_dir, next_door_dir, pick_door_dir,
}

-- The fields that `open` sets before it picks the direction of the door.
unfoldable pub halt : Controller → Controller
halt c = record c {
  car = record (c.car) {
    behavior = Behavior.door_open;
    direction = Direction.stop;
    door_open = true;
  };
}

-- The direction and the deadline of the door that `open` sets, and the calls that it makes.
unfoldable pub swing : ℕ → Direction → Controller → Controller
swing now dir c = record c {
  door_dir = dir;
  door_deadline = some (now + c.cfg.door_open_duration);
  dev = set_door_open_lamp true ∷ set_motor_direction Direction.stop ∷ c.dev;
}

-- The direction that `open` picks for the door.
unfoldable pub door_dir_of : Direction → Controller → Direction
door_dir_of arrival c = pick_door_dir (halt c) (assignments (halt c)) arrival

-- `open`.
unfoldable pub open_door : ℕ → Direction → Controller → Controller
open_door now arrival c =
    let dir = door_dir_of arrival c in sync (clear_floor dir (swing now dir (halt c)))

-- `plan` where there is nowhere to go, and where there is.
unfoldable pub rest : Controller → Controller
rest c = sync (record c {
  car = record (c.car) { behavior = Behavior.idle; direction = Direction.stop };
  dev = set_motor_direction Direction.stop ∷ c.dev;
})

unfoldable pub depart : ℕ → Direction → Controller → Controller
depart now dir c = sync (record c {
  car = record (c.car) { behavior = Behavior.moving; direction = dir };
  travel_dir = dir;
  last_move = now;
  dev = set_motor_direction dir ∷ c.dev;
})

-- `plan`.
unfoldable pub plan : ℕ → Controller → Controller
plan now c =
    let asg = assignments c in
    let dir = next_dir c asg in
    if is_door_open c.car.behavior || is_stuck c.car.behavior
    then sync c
    else if can_serve c c.car.floor asg
    then open_door now c.travel_dir c
    else if eq_direction dir Direction.stop
    then rest c
    else depart now dir c

-- `c.doorDeadline.IsZero() || now.Before(c.doorDeadline)`.
abbrev pub before_deadline : ℕ → Option ℕ → Bool
before_deadline now none = true
before_deadline now (some deadline) = ltb now deadline

-- `doorStep` where the door stays open for the other direction, and where it closes.
unfoldable pub turn_door : ℕ → Direction → Controller → Controller
turn_door now dir c =
    let c₁ = clear_floor dir (record c { door_dir = dir }) in
    sync (record c₁ { door_deadline = some (now + c.cfg.door_open_duration) })

unfoldable pub close_door : ℕ → Controller → Controller
close_door now c = plan now (record c {
  car = record (c.car) { door_open = false; behavior = Behavior.idle };
  door_dir = Direction.stop;
  door_deadline = none;
  dev = set_door_open_lamp false ∷ c.dev;
})

abbrev pub end_cycle : ℕ → Controller → Option Direction → Controller
end_cycle now c (some dir) = turn_door now dir c
end_cycle now c none = close_door now c

-- Whether `doorStep` does anything.
abbrev pub is_door_due : ℕ → Controller → Bool
is_door_due now c =
    not (
      not (is_door_open c.car.behavior) || c.car.obstruction || before_deadline now c.door_deadline)

-- `doorStep`: the controller after the call, and its result.
unfoldable pub door_step : ℕ → Controller → Controller × Bool
door_step now c =
    if is_door_due now c
    then (end_cycle now c (next_door_dir c (assignments c)), true)
    else (c, false)
