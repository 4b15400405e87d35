-- ===== src/Gossip/Model/Kinds.antt =====
-- internal/model/types.go: directions, behaviours and buttons.
use heis_test.Prelude.Int.{ℤ, pos, negsuc}
use mathlib.Core.Bool.{Bool, true, false}

pub data Direction : Type 0 where
  down stop up : Direction

-- The number that a direction is in the code.
abbrev pub direction_int : Direction → ℤ
direction_int Direction.down = negsuc 0
direction_int Direction.stop = pos 0
direction_int Direction.up = pos 1

pub data Behavior : Type 0 where
  idle moving door_open stuck : Behavior

pub data Button : Type 0 where
  hall_up hall_down cab : Button

-- `Button.Direction`.
unfoldable pub direction : Button → Direction
direction Button.hall_up = Direction.up
direction Button.hall_down = Direction.down
direction Button.cab = Direction.stop

-- `==` on the enumerations.
abbrev pub eq_direction : Direction → Direction → Bool
eq_direction Direction.down Direction.down = true
eq_direction Direction.stop Direction.stop = true
eq_direction Direction.up Direction.up = true
eq_direction _ _ = false

abbrev pub is_moving : Behavior → Bool
is_moving Behavior.moving = true
is_moving _ = false

abbrev pub is_door_open : Behavior → Bool
is_door_open Behavior.door_open = true
is_door_open _ = false

abbrev pub is_stuck : Behavior → Bool
is_stuck Behavior.stuck = true
is_stuck _ = false

abbrev pub is_idle : Behavior → Bool
is_idle Behavior.idle = true
is_idle _ = false
