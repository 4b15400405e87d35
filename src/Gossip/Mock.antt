-- ===== src/Gossip/Mock.antt =====
-- internal/driver/mock/mock.go: the simulated car that the controller drives when it is tried out.
-- Each method is one step, as the mutex makes it; the floor channel is the list of the floors in it,
-- the next to be received first.
pub mod Travel
pub mod Console
use heis_test.Prelude.{
  ℕ, ◌-◌, List, [], ◌∷◌, ◌++◌, Bool, true, false, not, ◌||◌, ltb, length, if◌then◌else◌, ℕ_discrete,
}
use heis_test.Prelude.Assoc
use heis_test.Prelude.Int.{ℤ, pos, ◌+ℤ◌, eq_ℤ, ltb_ℤ}
use heis_test.Gossip.Model.Kinds.{Direction, Button, direction_int, eq_direction}
use heis_test.Gossip.Controller.State.{default_floors, or_default}

pub record MockConfig : Type 0 where
  pub floors : ℤ
  pub start_floor : ℤ
  pub travel_duration : ℕ

-- The key of a lamp, which the code spells as a text.
pub record LampKey : Type 0 where
  pub button : Button
  pub floor : ℤ

unfoldable pub LampKey-discrete : Discrete LampKey
unfolding ℕ_discrete
LampKey-discrete = hlevel ℕ_discrete

pub record MockDriver : Type 0 where
  pub cfg : MockConfig
  pub floors : List ℤ
  pub floor : ℤ
  pub motor : Direction
  pub door_open : Bool
  pub lamps : List (LampKey × Bool)
  pub last_move : ℕ

-- The defaults that `New` fills in: 700 milliseconds for a floor.
unfoldable pub mock_defaults : MockConfig → MockConfig
mock_defaults cfg = record cfg {
  floors = if eq_ℤ cfg.floors (pos 0) then default_floors else cfg.floors;
  travel_duration = or_default 700_000_000 cfg.travel_duration;
}

-- `New`.
unfoldable pub new_mock : MockConfig → ℕ → MockDriver
new_mock cfg now = record {
  cfg = mock_defaults cfg;
  floors = [];
  floor = cfg.start_floor;
  motor = Direction.stop;
  door_open = false;
  lamps = [];
  last_move = now;
}

-- `SetMotorDirection`.
unfoldable pub set_motor_direction : ℕ → Direction → MockDriver → MockDriver
set_motor_direction now dir d = record d {
  motor = dir;
  last_move = if eq_direction d.motor dir then d.last_move else now;
}

-- `SetButtonLamp`, `SetFloorIndicator` and `SetDoorOpenLamp`.
unfoldable pub set_button_lamp : Button → ℤ → Bool → MockDriver → MockDriver
set_button_lamp button floor on d = record d {
  lamps = Assoc.put LampKey-discrete (record { button = button; floor = floor }) on d.lamps;
}

unfoldable pub set_floor_indicator : ℤ → MockDriver → MockDriver
set_floor_indicator floor d = record d { floor = floor }

unfoldable pub set_door_open_lamp : Bool → MockDriver → MockDriver
set_door_open_lamp on d = record d { door_open = on }

-- The capacity of the floor channel.
abbrev pub capacity : ℕ
capacity = 64

-- `select { case d.floors <- d.floor: default: }`.
unfoldable pub report_floor : MockDriver → MockDriver
report_floor d =
    if ltb (length d.floors) capacity then record d { floors = d.floors ++ (d.floor ∷ []) } else d

-- The part of `step` behind its two tests.
unfoldable pub travel : ℕ → MockDriver → MockDriver
travel now d =
    let next = d.floor +ℤ direction_int d.motor in
    if ltb_ℤ next (pos 0) || not (ltb_ℤ next d.cfg.floors)
    then record d { motor = Direction.stop }
    else report_floor (record d { floor = next; last_move = now })

-- `step`.
unfoldable pub step : ℕ → MockDriver → MockDriver
step now d =
    if eq_direction d.motor Direction.stop
    then record d { last_move = now }
    else if ltb (now - d.last_move) d.cfg.travel_duration
    then d
    else travel now d

-- A round of the ticker at each of some times.
unfoldable pub steps : List ℕ → MockDriver → MockDriver
steps [] d = d
steps (now ∷ times) d = steps times (step now d)
