-- ===== src/Station/Waiting.antt =====
-- The door timer runs whenever the door is open (main.go with elevator/fsm.go): what the functions of
-- the FSM leave of a car whose timer runs or does not.
use heis_test.Prelude.{◌≡◌, ◌≢◌, refl, ap, ◌∙◌, List, Bool, true, false, ◌||◌, some, arith}
use heis_test.Prelude.Int.{ℤ, pos, negsuc, eq_ℤ}
use heis_test.Station.Elevio.{ButtonType, MotorDirection, Command}
use heis_test.Station.Elevator.{
  State, Row, Elevator, any_button, row, set_row, put, ◌>>=◌, requests_here, clear_row,
  clear_at_current_floor, choose_direction, should_stop,
}
use heis_test.Station.Fsm.{
  Outcome, arrive, stop_here, on_floor_arrival, leave_door, time_out, on_door_timeout, set_off,
  requested, on_request_button_press,
}
use heis_test.Station.Partial.{Every, just, Every->>=, Every-if, any_result}
use heis_test.Station.Idle.{IsQuiet, choose-IsQuiet, choose_here}

-- An open door's timer runs, and a car that stands idle has no request.
pub record IsTimed (active : Bool) (e : Elevator) : Type 0 where
  pub open_runs : e.behaviour ≡ State.door_open → active ≡ true
  pub idle_quiet : e.behaviour ≡ State.idle → IsQuiet e

-- The same of the outcome, where the timer may be started.
abbrev pub LeavesTimed : Bool → Outcome → Type 0
LeavesTimed active o = IsTimed (o.start_timer || active) o.elevator

open-IsTimed :
    (active : Bool) (e : Elevator) → e.behaviour ≡ State.door_open → IsTimed (true || active) e
open-IsTimed active e h = record { open_runs = λ _. refl; idle_quiet = λ i. absurd (ground arith) }

moving-IsTimed : (active : Bool) (e : Elevator) → e.behaviour ≡ State.moving → IsTimed active e
moving-IsTimed active e h = record {
  open_runs = λ i. absurd (ground arith);
  idle_quiet = λ i. absurd (ground arith);
}

clear_behaviour :
    (e : Elevator) → Every (λ e₁. e₁.behaviour ≡ e.behaviour) (clear_at_current_floor e)
unfolding clear_at_current_floor
clear_behaviour e = Every->>= (any_result (row e.floor e.requests)) (λ r _.
    let r₁ = record r { cab = false } in
    let e₁ = record e { requests = set_row e.floor r₁ e.requests } in
    Every->>= (any_result (clear_row e.dir e₁ r₁)) (λ r₂ _. just refl))

arrive-LeavesTimed :
    (active : Bool) (b : State) (e : Elevator) (cs : List Command)
    → e.behaviour ≡ b
    → IsTimed active e
    → Every (LeavesTimed active) (arrive b e cs)
unfolding arrive stop_here
arrive-LeavesTimed active State.moving e cs q h = Every->>= (any_result (should_stop e)) (λ stops _.
    Every-if stops (λ _. Every->>= (clear_behaviour e) (λ e₁ _. just (open-IsTimed active _ refl)))
      (λ _. just h))
arrive-LeavesTimed active State.idle e cs q h = just h
arrive-LeavesTimed active State.door_open e cs q h = just h

pub arrival-LeavesTimed :
    (active : Bool) (e : Elevator) (f : ℤ)
    → IsTimed active e
    → Every (LeavesTimed active) (on_floor_arrival e f)
unfolding on_floor_arrival
arrival-LeavesTimed active e f h =
    arrive-LeavesTimed active e.behaviour (record e { floor = f }) _ refl
      (record { open_runs = h.open_runs; idle_quiet = h.idle_quiet })

leave_door-LeavesTimed :
    (active : Bool) (d : MotorDirection) (b : State) (e : Elevator)
    → e.behaviour ≡ b
    → (b ≡ State.idle → IsQuiet e)
    → Every (LeavesTimed active) (leave_door d b e)
unfolding leave_door
leave_door-LeavesTimed active d State.door_open e q h =
    Every->>= (clear_behaviour e) (λ e₁ same. just (open-IsTimed active e₁ (same ∙ q)))
leave_door-LeavesTimed active d State.moving e q h = just (moving-IsTimed active e q)
leave_door-LeavesTimed active d State.idle e q h =
    just (record { open_runs = λ i. absurd (ground arith); idle_quiet = λ _. h refl })

time_out-LeavesTimed :
    (b : State) (e : Elevator)
    → e.behaviour ≡ b
    → (b ≡ State.idle → IsQuiet e)
    → Every (LeavesTimed false) (time_out b e)
unfolding time_out
time_out-LeavesTimed State.door_open e q h =
    Every->>= (any_result (choose_direction e)) (λ (d, b) chosen.
      leave_door-LeavesTimed false d b _ refl
        (λ i. choose-IsQuiet e d (chosen ∙ ap (λ s. some (d, s)) i)))
time_out-LeavesTimed State.idle e q h =
    just (record { open_runs = λ i. absurd (ground arith); idle_quiet = λ _. h refl })
time_out-LeavesTimed State.moving e q h = just (moving-IsTimed false e q)

pub timeout-LeavesTimed :
    (active : Bool) (e : Elevator)
    → IsTimed active e
    → Every (LeavesTimed false) (on_door_timeout e)
unfolding on_door_timeout
timeout-LeavesTimed active e h =
    Every-if e.obstructed (λ _. just (record { open_runs = λ _. refl; idle_quiet = h.idle_quiet }))
      (λ _. time_out-LeavesTimed e.behaviour e refl h.idle_quiet)

-- A request elsewhere is none at the car's floor.
elsewhere_at :
    (f g : ℤ) (r : Row) (e : Elevator)
    → eq_ℤ f g ≡ false
    → IsQuiet e
    → (row f (set_row g r e.requests) >>= λ x. some (any_button x)) ≢ some true
unfolding row set_row
elsewhere_at (pos n) (pos m) r e other h on = ground (arith, h n)
elsewhere_at (pos n) (negsuc m) r e other h on = ground (arith, h n)
elsewhere_at (negsuc n) g r e other h on = ground arith

set_off-LeavesTimed :
    (active : Bool) (d : MotorDirection) (b : State) (e : Elevator)
    → e.behaviour ≡ b
    → b ≢ State.door_open
    → (b ≡ State.idle → IsQuiet e)
    → Every (LeavesTimed active) (set_off d b e)
unfolding set_off
set_off-LeavesTimed active d State.moving e q n h = just (moving-IsTimed active e q)
set_off-LeavesTimed active d State.door_open e q n h = absurd (n refl)
set_off-LeavesTimed active d State.idle e q n h =
    just (record { open_runs = λ i. absurd (ground arith); idle_quiet = λ _. h refl })

requested-LeavesTimed :
    (active : Bool) (b : State) (e : Elevator) (f : ℤ) (r : Row)
    → e.behaviour ≡ b
    → IsTimed active e
    → Every (LeavesTimed active) (requested b (record e { requests = set_row f r e.requests }) f)
unfolding requested requests_here
requested-LeavesTimed active State.door_open e f r q h =
    Every-if (eq_ℤ e.floor f)
      (λ _. Every->>= (clear_behaviour _) (λ e₁ same. just (open-IsTimed active e₁ (same ∙ q))))
      (λ _. just (record { open_runs = h.open_runs; idle_quiet = λ i. absurd (ground arith) }))
requested-LeavesTimed active State.idle e f r q h =
    let e₁ = record e { requests = set_row f r e.requests } in
    Every-if (eq_ℤ e.floor f)
      (λ _. Every->>= (clear_behaviour e₁) (λ e₂ _. just (open-IsTimed active _ refl)))
      (λ other. Every->>= (any_result (choose_direction e₁)) (λ (d, b) chosen.
        set_off-LeavesTimed active d b _ refl
          (λ o.
            elsewhere_at e.floor f r e other (h.idle_quiet q)
              (choose_here e₁ d (chosen ∙ ap (λ s. some (d, s)) o)))
          (λ i. choose-IsQuiet e₁ d (chosen ∙ ap (λ s. some (d, s)) i))))
requested-LeavesTimed active State.moving e f r q h = just (moving-IsTimed active _ q)

pub press-LeavesTimed :
    (active : Bool) (e : Elevator) (f : ℤ)
    → IsTimed active e
    → Every (LeavesTimed active) (on_request_button_press e f ButtonType.cab)
unfolding on_request_button_press
press-LeavesTimed active e f h =
    Every->>= (any_result (row f e.requests))
      (λ r _. requested-LeavesTimed active e.behaviour e f (put ButtonType.cab true r) refl h)
