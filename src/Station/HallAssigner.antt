-- ===== src/Station/HallAssigner.antt =====
-- hallassigner/hallassigner.go. The map of elevators is a list, whose order stands for the order in
-- which the code's `range` goes through it.
use heis_test.Prelude.{
  ℕ, zero, suc, ◌+◌, List, [], ◌∷◌, Bool, true, false, ◌&&◌, ◌||◌, ◌==◌, Option, none, some, ltb,
  if◌then◌else◌, ℕ_discrete, map,
}
use heis_test.Prelude.Assoc
use heis_test.Prelude.Int.{ℤ, pos, ◌+ℤ◌, ◌-ℤ◌, ltb_ℤ, eq_ℤ}
use heis_test.Station.Elevio.{ButtonType, MotorDirection, num_floors}
use heis_test.Station.Elevator.{State, Requests, no_requests}

-- An ID is a text, here the list of its bytes.
abbrev pub PeerId : Type 0
PeerId = List ℕ

unfoldable pub PeerId-discrete : Discrete PeerId
unfolding ℕ_discrete
PeerId-discrete = hlevel ℕ_discrete

-- `[2]bool`, the hall buttons of a floor.
pub record HallRow : Type 0 where
  pub up : Bool
  pub down : Bool

abbrev pub HallRequests : Type 0
HallRequests = ℕ → HallRow

pub record ElevatorState : Type 0 where
  pub behaviour : State
  pub floor : ℤ
  pub direction : MotorDirection
  pub cab_requests : ℕ → Bool

-- `btnToDir`.
unfoldable pub btn_to_dir : ButtonType → MotorDirection
btn_to_dir ButtonType.hall_up = MotorDirection.up
btn_to_dir ButtonType.hall_down = MotorDirection.down
btn_to_dir ButtonType.cab = MotorDirection.down

abbrev pub eq_direction : MotorDirection → MotorDirection → Bool
eq_direction MotorDirection.up MotorDirection.up = true
eq_direction MotorDirection.down MotorDirection.down = true
eq_direction MotorDirection.stop MotorDirection.stop = true
eq_direction _ _ = false

abbrev pub is_stop : MotorDirection → Bool
is_stop MotorDirection.stop = true
is_stop _ = false

abbrev pub is_door_open : State → Bool
is_door_open State.door_open = true
is_door_open _ = false

-- The second `switch` of the loop of `cost`: the next floor and direction.
unfoldable pub advance : ℤ → ℤ → MotorDirection → ℤ × MotorDirection
advance target d MotorDirection.up =
    if ltb_ℤ d (pos num_floors -ℤ pos 1)
    then (d +ℤ pos 1, MotorDirection.up)
    else (d, MotorDirection.down)
advance target d MotorDirection.down =
    if ltb_ℤ (pos 0) d then (d -ℤ pos 1, MotorDirection.down) else (d, MotorDirection.up)
advance target d MotorDirection.stop =
    if ltb_ℤ d target then (d, MotorDirection.up) else (d, MotorDirection.down)

-- The loop of `cost`; `none` means that the fuel ran out.
unfoldable pub cost_from : ℕ → ℤ → ButtonType → ℤ → MotorDirection → ℕ → Option ℕ
cost_from zero target b d dir duration = none
cost_from (suc fuel) target b d dir duration =
    let next = advance target d dir in
    let duration' = duration + 2 in
    let rest = cost_from fuel target b next.0 next.1 duration' in
    if eq_ℤ d target && (eq_direction dir (btn_to_dir b) || is_stop dir)
    then some duration
    else if ltb 100 duration'
    then some duration'
    else rest

abbrev pub cost_fuel : ℕ
cost_fuel = 51

-- `cost`.
unfoldable pub cost : ElevatorState → ℤ → ButtonType → Option ℕ
cost e target b =
    cost_from cost_fuel target b e.floor e.direction (if is_door_open e.behaviour then 1 else 0)

abbrev pub Elevators : Type 0
Elevators = List (PeerId × ElevatorState)

-- `c < bestCost`, where the cost is above all numbers at first.
abbrev pub is_below : Option ℕ → Option ℕ → Bool
is_below none best = false
is_below (some c) none = true
is_below (some c) (some best) = ltb c best

-- The loop over the elevators for one hall button: the best ID and cost so far.
unfoldable pub best_from : ℤ → ButtonType → Option PeerId → Option ℕ → Elevators → Option PeerId
best_from floor b best_id best_cost [] = best_id
best_from floor b best_id best_cost ((id, e) ∷ es) =
    let c = cost e floor b in
    let better = is_below c best_cost in
    best_from floor b (if better then some id else best_id) (if better then c else best_cost) es

abbrev pub Assignments : Type 0
Assignments = List (PeerId × Requests)

-- The cab requests of an elevator as a matrix.
unfoldable pub cab_matrix : ElevatorState → Requests
cab_matrix e f = record { hall_up = false; hall_down = false; cab = e.cab_requests f }

-- `m[floor][btn] = true`.
unfoldable pub give : ℕ → ButtonType → Requests → Requests
give floor ButtonType.hall_up m f = if floor == f then record (m f) { hall_up = true } else m f
give floor ButtonType.hall_down m f = if floor == f then record (m f) { hall_down = true } else m f
give floor ButtonType.cab m f = if floor == f then record (m f) { cab = true } else m f

-- A missing matrix is a zero matrix.
abbrev pub or_empty : Option Requests → Requests
or_empty none = no_requests
or_empty (some m) = m

-- `m := result[bestID]; m[floor][btn] = true; result[bestID] = m`, for a best ID that is a key; the
-- code also takes the empty ID for none.
unfoldable pub give_to : ℕ → ButtonType → Option PeerId → Assignments → Assignments
give_to floor b none result = result
give_to floor b (some []) result = result
give_to floor b (some (x ∷ id)) result =
    Assoc.put PeerId-discrete (x ∷ id)
      (give floor b (or_empty (Assoc.get? PeerId-discrete (x ∷ id) result))) result

-- One hall button.
unfoldable pub assign_button : Elevators → ℕ → ButtonType → Bool → Assignments → Assignments
assign_button es floor b on result =
    if on then give_to floor b (best_from (pos floor) b none none es) result else result

-- The loops over the floors from `f`, with the floors that are left, and over the two buttons.
unfoldable pub assign_from : HallRequests → Elevators → ℕ → ℕ → Assignments → Assignments
assign_from hall es zero f result = result
assign_from hall es (suc n) f result = assign_from hall es n (suc f) (
    assign_button es f ButtonType.hall_down (hall f).down
      (assign_button es f ButtonType.hall_up (hall f).up result))

-- `Assign`.
unfoldable pub assign : HallRequests → Elevators → Assignments
assign hall es = assign_from hall es num_floors 0 (map (λ p. (p.0, cab_matrix p.1)) es)
