-- ===== src/Station/Door.antt =====
-- elevator/fsm.go: the motor and the door's lamp follow the state of the car.
use heis_test.Prelude.{◌≡◌, refl, [], ◌∷◌, Bool, true, false}
use heis_test.Prelude.Int.{ℤ, eq_ℤ}
use heis_test.Station.Elevio.{ButtonType, MotorDirection, set_floor_indicator}
use heis_test.Station.Elevator.{State, Elevator, row, set_row, put, choose_direction, should_stop}
use heis_test.Station.Fsm.{
  on_request_button_press, on_floor_arrival, on_door_timeout, arrive, stop_here, leave_door,
  time_out, set_off, requested,
}
use heis_test.Station.HallAssigner.{is_stop}
use heis_test.Station.Partial.{Every, just, Every->>=, Every-if, any_result}
use heis_test.Station.Signals.{
  IsShown, Shows, motor_after, lamp_after, clear-Keeps, Goes, choose_direction_of-Goes,
}

choose_direction-Goes : (e : Elevator) → Every Goes (choose_direction e)
unfolding choose_direction
choose_direction-Goes e = choose_direction_of-Goes e.dir e

-- The door is open: the motor stands still and the lamp of the door is on.
open-IsShown : (d : MotorDirection) → IsShown MotorDirection.stop true State.door_open d
open-IsShown d = record { motor = refl; lamp = refl; going = λ (q : false ≡ true). cc }

idle-IsShown : (d : MotorDirection) → IsShown MotorDirection.stop false State.idle d
idle-IsShown d = record { motor = refl; lamp = refl; going = λ (q : false ≡ true). cc }

moving-IsShown : (d : MotorDirection) → is_stop d ≡ false → IsShown d false State.moving d
moving-IsShown d q = record { motor = refl; lamp = refl; going = λ _. q }

stop_here-Shows :
    (f : ℤ) (m : MotorDirection) (l : Bool) (e : Elevator)
    → Every (Shows m l) (stop_here e (set_floor_indicator f ∷ []))
unfolding stop_here motor_after lamp_after
stop_here-Shows f m l e = Every->>= (clear-Keeps e) (λ e₁ p. just (open-IsShown e₁.dir))

arrive-Shows :
    (f : ℤ) (m : MotorDirection) (l : Bool) (b : State) (e : Elevator)
    → e.behaviour ≡ b
    → IsShown m l e.behaviour e.dir
    → Every (Shows m l) (arrive b e (set_floor_indicator f ∷ []))
unfolding arrive motor_after lamp_after
arrive-Shows f m l State.moving e q h =
    Every->>= (any_result (should_stop e))
      (λ stops _. Every-if stops (λ _. stop_here-Shows f m l e) (λ _. just h))
arrive-Shows f m l State.idle e q h = just h
arrive-Shows f m l State.door_open e q h = just h

pub arrival-Shows :
    (m : MotorDirection) (l : Bool) (e : Elevator) (f : ℤ)
    → IsShown m l e.behaviour e.dir
    → Every (Shows m l) (on_floor_arrival e f)
unfolding on_floor_arrival
arrival-Shows m l e f h = arrive-Shows f m l e.behaviour (record e { floor = f }) refl h

leave_door-Shows :
    (d : MotorDirection) (b : State) (e : Elevator)
    → Goes (d, b)
    → Every (Shows MotorDirection.stop true) (leave_door d b (record e { dir = d; behaviour = b }))
unfolding leave_door motor_after lamp_after
leave_door-Shows d State.door_open e g =
    Every->>= (clear-Keeps (record e { dir = d; behaviour = State.door_open }))
      (λ e₁ p. just (rw p.0 (open-IsShown e₁.dir)))
leave_door-Shows d State.moving e g = just (moving-IsShown d (g refl))
leave_door-Shows d State.idle e g = just (idle-IsShown d)

time_out-Shows :
    (m : MotorDirection) (l : Bool) (b : State) (e : Elevator)
    → IsShown m l b e.dir
    → e.behaviour ≡ b
    → Every (Shows m l) (time_out b e)
unfolding time_out motor_after lamp_after
time_out-Shows m l State.door_open e h q =
    rw h.motor
      (rw h.lamp (Every->>= (choose_direction-Goes e) (λ x g. leave_door-Shows x.0 x.1 e g)))
time_out-Shows m l State.idle e h q = just (rw q h)
time_out-Shows m l State.moving e h q = just (rw q h)

pub timeout-Shows :
    (m : MotorDirection) (l : Bool) (e : Elevator)
    → IsShown m l e.behaviour e.dir
    → Every (Shows m l) (on_door_timeout e)
unfolding on_door_timeout motor_after lamp_after
timeout-Shows m l e h =
    Every-if e.obstructed (λ _. just h) (λ _. time_out-Shows m l e.behaviour e h refl)

set_off-Shows :
    (d : MotorDirection) (b : State) (e : Elevator)
    → Goes (d, b)
    → Every (Shows MotorDirection.stop false) (set_off d b (record e { dir = d; behaviour = b }))
unfolding set_off motor_after lamp_after
set_off-Shows d State.moving e g = just (moving-IsShown d (g refl))
set_off-Shows d State.door_open e g =
    Every->>= (clear-Keeps (record e { dir = d; behaviour = State.door_open }))
      (λ e₁ p. just (rw p.0 (open-IsShown e₁.dir)))
set_off-Shows d State.idle e g = just (idle-IsShown d)

requested-Shows :
    (m : MotorDirection) (l : Bool) (b : State) (e : Elevator) (f : ℤ)
    → IsShown m l b e.dir
    → e.behaviour ≡ b
    → Every (Shows m l) (requested b e f)
unfolding requested motor_after lamp_after
requested-Shows m l State.door_open e f h q =
    Every-if (eq_ℤ e.floor f)
      (λ _. Every->>= (clear-Keeps e) (λ e₁ p. just (rw p.0 (rw p.1 (rw q h)))))
      (λ _. just (rw q h))
requested-Shows m l State.idle e f h q = rw h.motor (
    rw h.lamp (
      Every-if (eq_ℤ e.floor f)
        (λ _. Every->>= (clear-Keeps e) (λ e₁ p. just (open-IsShown e₁.dir)))
        (λ _. Every->>= (choose_direction-Goes e) (λ x g. set_off-Shows x.0 x.1 e g))))
requested-Shows m l State.moving e f h q = just (rw q h)

pub press-Shows :
    (m : MotorDirection) (l : Bool) (e : Elevator) (f : ℤ) (b : ButtonType)
    → IsShown m l e.behaviour e.dir
    → Every (Shows m l) (on_request_button_press e f b)
unfolding on_request_button_press
press-Shows m l e f b h = Every->>= (any_result (row f e.requests)) (λ r _.
    requested-Shows m l e.behaviour (record e { requests = set_row f (put b true r) e.requests }) f
      h refl)
