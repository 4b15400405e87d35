-- ===== src/Station/Signals.antt =====
-- What the hardware shows after the calls of elevator/fsm.go: the motor and the lamp of the door.
use heis_test.Prelude.{
  ℕ, zero, suc, ◌≡◌, refl, List, [], ◌∷◌, ◌++◌, map, Bool, true, false, Option, none, some,
}
use heis_test.Station.Elevio.{
  MotorDirection, set_motor_direction, set_button_lamp, set_floor_indicator, set_door_open_lamp,
  set_stop_lamp,
}
use heis_test.Station.Elevator.{
  State, Elevator, row, set_row, clear_row, clear_at_current_floor, or_else, choose_direction_of,
  requests_above, requests_below, requests_here,
}
use heis_test.Station.Fsm.{Outcome, lights_from}
use heis_test.Station.HallAssigner.{is_door_open, is_stop}
use heis_test.Station.Partial.{Every, nothing, just, Every->>=, any_result}
use heis_test.Station.World.{Output, command, state_tx, hall_tx}

abbrev turn : MotorDirection → Output → MotorDirection
turn m (command (set_motor_direction d)) = d
turn m (command (set_button_lamp b f on)) = m
turn m (command (set_floor_indicator f)) = m
turn m (command (set_door_open_lamp on)) = m
turn m (command (set_stop_lamp on)) = m
turn m (state_tx msg) = m
turn m (hall_tx msg) = m

abbrev switch : Bool → Output → Bool
switch l (command (set_motor_direction d)) = l
switch l (command (set_button_lamp b f on)) = l
switch l (command (set_floor_indicator f)) = l
switch l (command (set_door_open_lamp on)) = on
switch l (command (set_stop_lamp on)) = l
switch l (state_tx msg) = l
switch l (hall_tx msg) = l

-- The motor's direction and the door's lamp after these calls, from what they were before.
unfoldable pub motor_after : MotorDirection → List Output → MotorDirection
motor_after m [] = m
motor_after m (o ∷ os) = motor_after (turn m o) os

unfoldable pub lamp_after : Bool → List Output → Bool
lamp_after l [] = l
lamp_after l (o ∷ os) = lamp_after (switch l o) os

pub motor_after-append :
    (m : MotorDirection) (os ps : List Output)
    → motor_after m (os ++ ps) ≡ motor_after (motor_after m os) ps
unfolding motor_after
motor_after-append m [] ps = refl
motor_after-append m (o ∷ os) ps = motor_after-append (turn m o) os ps

pub lamp_after-append :
    (l : Bool) (os ps : List Output) → lamp_after l (os ++ ps) ≡ lamp_after (lamp_after l os) ps
unfolding lamp_after
lamp_after-append l [] ps = refl
lamp_after-append l (o ∷ os) ps = lamp_after-append (switch l o) os ps

pub motor_after-lights_from :
    (m : MotorDirection) (e : Elevator) (n f : ℕ)
    → motor_after m (map command (lights_from e n f)) ≡ m
unfolding motor_after lights_from
motor_after-lights_from m e zero f = refl
motor_after-lights_from m e (suc n) f = motor_after-lights_from m e n (suc f)

pub lamp_after-lights_from :
    (l : Bool) (e : Elevator) (n f : ℕ) → lamp_after l (map command (lights_from e n f)) ≡ l
unfolding lamp_after lights_from
lamp_after-lights_from l e zero f = refl
lamp_after-lights_from l e (suc n) f = lamp_after-lights_from l e n (suc f)

abbrev pub is_moving : State → Bool
is_moving State.moving = true
is_moving State.idle = false
is_moving State.door_open = false

-- What the motor does in a state: it runs in the car's direction while the car moves.
abbrev pub driving : State → MotorDirection → MotorDirection
driving State.moving d = d
driving State.idle d = MotorDirection.stop
driving State.door_open d = MotorDirection.stop

-- The hardware shows the state of the car.
pub record IsShown (m : MotorDirection) (l : Bool) (b : State) (d : MotorDirection) : Type 0 where
  pub motor : m ≡ driving b d
  pub lamp : l ≡ is_door_open b
  pub going : is_moving b ≡ true → is_stop d ≡ false

-- It does so after the calls of an outcome.
abbrev pub Shows : MotorDirection → Bool → Outcome → Type 0
Shows m l o =
    IsShown (motor_after m (map command o.commands)) (lamp_after l (map command o.commands))
      o.elevator.behaviour o.elevator.dir

abbrev pub Keeps : Elevator → Elevator → Type 0
Keeps e e₁ = (e₁.behaviour ≡ e.behaviour) × (e₁.dir ≡ e.dir)

pub clear-Keeps : (e : Elevator) → Every (Keeps e) (clear_at_current_floor e)
unfolding clear_at_current_floor
clear-Keeps e = Every->>= (any_result (row e.floor e.requests)) (λ r _.
    let r₁ = record r { cab = false } in
    let e₁ = record e { requests = set_row e.floor r₁ e.requests } in
    Every->>= (any_result (clear_row e.dir e₁ r₁)) (λ r₂ _. just (refl, refl)))

abbrev pub Goes : MotorDirection × State → Type 0
Goes x = is_moving x.1 ≡ true → is_stop x.0 ≡ false

or_else-Goes :
    (o : Option Bool) (x : MotorDirection × State) {rest : Option (MotorDirection × State)}
    → Goes x
    → Every Goes rest
    → Every Goes (or_else o x rest)
or_else-Goes none x p q = nothing
or_else-Goes (some true) x p q = just p
or_else-Goes (some false) x p q = q

pub choose_direction_of-Goes :
    (d : MotorDirection) (e : Elevator) → Every Goes (choose_direction_of d e)
unfolding choose_direction_of
choose_direction_of-Goes MotorDirection.up e =
    or_else-Goes (requests_above e) _ (λ _. refl)
      (or_else-Goes (requests_here e) _ (λ _. refl)
        (or_else-Goes (requests_below e) _ (λ _. refl) (just (λ (q : false ≡ true). cc))))
choose_direction_of-Goes MotorDirection.down e =
    or_else-Goes (requests_below e) _ (λ _. refl)
      (or_else-Goes (requests_here e) _ (λ _. refl)
        (or_else-Goes (requests_above e) _ (λ _. refl) (just (λ (q : false ≡ true). cc))))
choose_direction_of-Goes MotorDirection.stop e =
    or_else-Goes (requests_here e) _ (λ (q : false ≡ true). cc)
      (or_else-Goes (requests_above e) _ (λ _. refl)
        (or_else-Goes (requests_below e) _ (λ _. refl) (just (λ (q : false ≡ true). cc))))
