-- ===== src/Station/Elevio.antt =====
-- elevio/elevio.go: the numbers of the hardware, and the messages to and from the elevator server.
use heis_test.Prelude.{
  ℕ, ◌-◌, ◌%◌, List, [], ◌∷◌, Bool, true, false, not, ◌&&◌, ◌==◌, Option, none, some, if◌then◌else◌,
}
use heis_test.Prelude.Int.{ℤ, pos, negsuc, eq_ℤ}

abbrev pub num_floors : ℕ
num_floors = 4

pub data ButtonType : Type 0 where
  hall_up hall_down cab : ButtonType

pub data MotorDirection : Type 0 where
  up down stop : MotorDirection

pub record ButtonEvent : Type 0 where
  pub floor : ℤ
  pub button : ButtonType

-- What the program tells the hardware.
pub data Command : Type 0 where
  set_motor_direction : MotorDirection → Command
  set_button_lamp : ButtonType → ℕ → Bool → Command
  set_floor_indicator : ℤ → Command
  set_door_open_lamp : Bool → Command
  set_stop_lamp : Bool → Command

-- `byte(n)`: n modulo 256, where -(n + 1) is 255 - n.
abbrev pub byte : ℤ → ℕ
byte (pos n) = n % 256
byte (negsuc n) = 255 - n % 256

abbrev pub button_int : ButtonType → ℤ
button_int ButtonType.hall_up = pos 0
button_int ButtonType.hall_down = pos 1
button_int ButtonType.cab = pos 2

abbrev pub direction_int : MotorDirection → ℤ
direction_int MotorDirection.up = pos 1
direction_int MotorDirection.down = negsuc 0
direction_int MotorDirection.stop = pos 0

abbrev pub bit : Bool → ℕ
bit true = 1
bit false = 0

-- The message that `SetMotorDirection`, `SetButtonLamp` and the other setters write.
unfoldable pub message : Command → List ℕ
message (set_motor_direction dir) = 1 ∷ byte (direction_int dir) ∷ 0 ∷ 0 ∷ []
message (set_button_lamp b f on) = 2 ∷ byte (button_int b) ∷ byte (pos f) ∷ bit on ∷ []
message (set_floor_indicator f) = 3 ∷ byte f ∷ 0 ∷ 0 ∷ []
message (set_door_open_lamp on) = 4 ∷ bit on ∷ 0 ∷ 0 ∷ []
message (set_stop_lamp on) = 5 ∷ bit on ∷ 0 ∷ 0 ∷ []

-- The reply of the server, four bytes.
pub record Reply : Type 0 where
  pub b₀ : ℕ
  pub b₁ : ℕ
  pub b₂ : ℕ
  pub b₃ : ℕ

-- `GetFloor`, and the test of `GetButton`, `GetObstruction` and `GetStop`.
unfoldable pub get_floor : Reply → ℤ
get_floor r = if r.b₁ == 0 then negsuc 0 else pos (r.b₂)

unfoldable pub get_flag : Reply → Bool
get_flag r = not (r.b₁ == 0)

-- One round of `PollFloorSensor`: the last reported reading, and what is sent.
unfoldable pub poll_floor_sensor : ℤ → ℤ → ℤ × Option ℤ
poll_floor_sensor prev v =
    if not (eq_ℤ v prev) && not (eq_ℤ v (negsuc 0)) then (v, some v) else (prev, none)

abbrev pub eq_bool : Bool → Bool → Bool
eq_bool true b = b
eq_bool false b = not b

-- One round of `PollObstructionSwitch` and of `PollStopButton`.
unfoldable pub poll_switch : Bool → Bool → Bool × Option Bool
poll_switch prev v = if eq_bool v prev then (prev, none) else (v, some v)
