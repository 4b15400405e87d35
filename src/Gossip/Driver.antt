-- ===== src/Gossip/Driver.antt =====
-- internal/driver/driver.go: the device that the controller drives. Its three event channels are
-- the events that the handlers take; the calls that change it are kept as a log, the newest first.
use heis_test.Prelude.{List, [], ◌∷◌, Bool, true, false, Option, none, some, ◌&&◌, if◌then◌else◌}
use heis_test.Prelude.Int.{ℤ, eq_ℤ}
use heis_test.Gossip.Model.Kinds.{Direction, Button}

pub record ButtonEvent : Type 0 where
  pub floor : ℤ
  pub button : Button

pub data Command : Type 0 where
  set_motor_direction : Direction → Command
  set_button_lamp : Button → ℤ → Bool → Command
  set_floor_indicator : ℤ → Command
  set_door_open_lamp : Bool → Command

-- The direction that the motor was last told; it stands still before.
abbrev pub motor : List Command → Direction
motor [] = Direction.stop
motor (set_motor_direction d ∷ dev) = d
motor (set_button_lamp b f on ∷ dev) = motor dev
motor (set_floor_indicator f ∷ dev) = motor dev
motor (set_door_open_lamp on ∷ dev) = motor dev

-- The state of the door lamp; it is dark before the first call.
abbrev pub door_lamp : List Command → Bool
door_lamp [] = false
door_lamp (set_motor_direction d ∷ dev) = door_lamp dev
door_lamp (set_button_lamp b f on ∷ dev) = door_lamp dev
door_lamp (set_floor_indicator f ∷ dev) = door_lamp dev
door_lamp (set_door_open_lamp on ∷ dev) = on

abbrev pub eq_button : Button → Button → Bool
eq_button Button.hall_up Button.hall_up = true
eq_button Button.hall_down Button.hall_down = true
eq_button Button.cab Button.cab = true
eq_button _ _ = false

-- What a button lamp was last told.
abbrev pub button_lamp : Button → ℤ → List Command → Option Bool
button_lamp b f [] = none
button_lamp b f (set_motor_direction d ∷ dev) = button_lamp b f dev
button_lamp b f (set_button_lamp b' f' on ∷ dev) =
    if eq_button b b' && eq_ℤ f f' then some on else button_lamp b f dev
button_lamp b f (set_floor_indicator f' ∷ dev) = button_lamp b f dev
button_lamp b f (set_door_open_lamp on ∷ dev) = button_lamp b f dev
