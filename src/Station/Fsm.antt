-- ===== src/Station/Fsm.antt =====
-- elevator/fsm.go. The calls to the hardware are returned, in the order in which they are made.
use heis_test.Prelude.{
  ℕ, zero, suc, List, [], ◌∷◌, ◌++◌, Bool, true, false, Option, some, if◌then◌else◌,
}
use heis_test.Prelude.Int.{ℤ, eq_ℤ}
use heis_test.Station.Elevio.{
  ButtonType, MotorDirection, Command, set_motor_direction, set_button_lamp, set_floor_indicator,
  set_door_open_lamp, num_floors,
}
use heis_test.Station.Elevator.{
  State, Elevator, ◌>>=◌, row, set_row, put, choose_direction, should_stop, clear_at_current_floor,
}

-- What a function of the FSM returns, and what it told the hardware.
pub record Outcome : Type 0 where
  pub elevator : Elevator
  pub start_timer : Bool
  pub commands : List Command

abbrev pub outcome : Elevator → Bool → List Command → Outcome
outcome e start cs = record { elevator = e; start_timer = start; commands = cs }

-- `SetAllLights`: the lamps of the floors from `f`, with the floors that are left.
unfoldable pub lights_from : Elevator → ℕ → ℕ → List Command
lights_from e zero f = []
lights_from e (suc n) f =
    set_button_lamp ButtonType.hall_up f (e.requests f).hall_up
    ∷ (set_button_lamp ButtonType.hall_down f (e.requests f).hall_down
        ∷ (set_button_lamp ButtonType.cab f (e.requests f).cab ∷ lights_from e n (suc f)))

unfoldable pub set_all_lights : Elevator → List Command
set_all_lights e = lights_from e num_floors 0

-- `OnInitBetweenFloors`.
unfoldable pub on_init_between_floors : Elevator → Outcome
on_init_between_floors e =
    outcome (record e { dir = MotorDirection.down; behaviour = State.moving }) false
      (set_motor_direction MotorDirection.down ∷ [])

-- The car stops: the part of `OnFloorArrival` under its two tests.
unfoldable pub stop_here : Elevator → List Command → Option Outcome
stop_here e cs = clear_at_current_floor e >>= λ e₁. some (
    outcome (record e₁ { behaviour = State.door_open }) true
      (cs ++ (set_motor_direction MotorDirection.stop ∷ set_door_open_lamp true ∷ [])))

unfoldable pub arrive : State → Elevator → List Command → Option Outcome
arrive State.moving e cs =
    should_stop e >>= λ stops. if stops then stop_here e cs else some (outcome e false cs)
arrive State.idle e cs = some (outcome e false cs)
arrive State.door_open e cs = some (outcome e false cs)

-- `OnFloorArrival`.
unfoldable pub on_floor_arrival : Elevator → ℤ → Option Outcome
on_floor_arrival e new_floor =
    let e₁ = record e { floor = new_floor } in
    arrive e₁.behaviour e₁ (set_floor_indicator new_floor ∷ [])

-- The last `switch` of `OnDoorTimeout`.
unfoldable pub leave_door : MotorDirection → State → Elevator → Option Outcome
leave_door dir State.door_open e =
    clear_at_current_floor e >>= λ e₁. some (outcome e₁ true (set_door_open_lamp true ∷ []))
leave_door dir State.moving e =
    some (outcome e false (set_door_open_lamp false ∷ set_motor_direction dir ∷ []))
leave_door dir State.idle e =
    some (outcome e false (set_door_open_lamp false ∷ set_motor_direction MotorDirection.stop ∷ []))

-- `OnDoorTimeout` past its test for an obstruction.
unfoldable pub time_out : State → Elevator → Option Outcome
time_out State.door_open e = choose_direction e >>= λ (dir, behaviour).
    leave_door dir behaviour (record e { dir = dir; behaviour = behaviour })
time_out State.idle e = some (outcome e false [])
time_out State.moving e = some (outcome e false [])

-- `OnDoorTimeout`.
unfoldable pub on_door_timeout : Elevator → Option Outcome
on_door_timeout e = if e.obstructed then some (outcome e true []) else time_out e.behaviour e

-- The inner `switch` of `OnRequestButtonPress`, in the case `Idle` at another floor.
unfoldable pub set_off : MotorDirection → State → Elevator → Option Outcome
set_off dir State.moving e = some (outcome e false (set_motor_direction dir ∷ []))
set_off dir State.door_open e =
    clear_at_current_floor e >>= λ e₁. some (outcome e₁ false (set_door_open_lamp true ∷ []))
set_off dir State.idle e = some (outcome e false [])

-- The `switch` of `OnRequestButtonPress`, with the request registered.
unfoldable pub requested : State → Elevator → ℤ → Option Outcome
requested State.door_open e floor =
    if eq_ℤ e.floor floor
    then (clear_at_current_floor e >>= λ e₁. some (outcome e₁ true []))
    else some (outcome e false [])
requested State.idle e floor =
    if eq_ℤ e.floor floor
    then (clear_at_current_floor e >>= λ e₁.
        some
          (outcome (record e₁ { behaviour = State.door_open }) true (set_door_open_lamp true ∷ [])))
    else (choose_direction e >>= λ (dir, behaviour).
        set_off dir behaviour (record e { dir = dir; behaviour = behaviour }))
requested State.moving e floor = some (outcome e false [])

-- `OnRequestButtonPress`.
unfoldable pub on_request_button_press : Elevator → ℤ → ButtonType → Option Outcome
on_request_button_press e floor b = row floor e.requests >>= λ r.
    let e₁ = record e { requests = set_row floor (put b true r) e.requests } in
    requested e₁.behaviour e₁ floor
