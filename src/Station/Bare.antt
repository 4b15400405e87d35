-- ===== src/Station/Bare.antt =====
-- elevator/fsm.go and elevator/requests.go add no hall request to a car that has none.
use heis_test.Prelude.{
  ℕ, ◌≡◌, refl, List, Bool, true, false, if◌then◌else◌, Bool-cases, inl, inr, ◌==◌, ltb,
}
use heis_test.Prelude.Int.{ℤ, pos, negsuc, eq_ℤ}
use heis_test.Station.Elevio.{ButtonType, MotorDirection, Command, num_floors}
use heis_test.Station.Elevator.{
  State, Row, Elevator, row, set_row, put, clear_row, clear_at_current_floor, requests_above,
  requests_below, choose_direction, should_stop,
}
use heis_test.Station.Fsm.{
  Outcome, on_request_button_press, on_floor_arrival, on_door_timeout, arrive, stop_here,
  leave_door, time_out, set_off, requested,
}
use heis_test.Station.Partial.{Every, nothing, just, Every->>=, Every-if, any_result}

-- No hall request in a row, and in any row of a matrix.
abbrev pub IsCabOnly : Row → Type 0
IsCabOnly r = (r.hall_up ≡ false) × (r.hall_down ≡ false)

abbrev pub IsBare : Elevator → Type 0
IsBare e = (f : ℕ) → IsCabOnly (e.requests f)

row-IsCabOnly : (f : ℤ) (e : Elevator) → IsBare e → Every IsCabOnly (row f e.requests)
unfolding row
row-IsCabOnly (pos f) e h = Every-if (ltb f num_floors) (λ _. just (h f)) (λ _. nothing)
row-IsCabOnly (negsuc f) e h = nothing

set_row-IsBare :
    (f : ℤ) (r : Row) (e : Elevator)
    → IsCabOnly r
    → IsBare e
    → IsBare (record e { requests = set_row f r e.requests })
unfolding set_row
set_row-IsBare (pos f) r e p h g = elim (Bool-cases (f == g)) [
  | inl t ↦ rw t p
  | inr n ↦ rw n (h g)
]
set_row-IsBare (negsuc f) r e p h g = h g

if_same : (b : Bool) → (if b then false else false) ≡ false
if_same true = refl
if_same false = refl

clear_row-IsCabOnly :
    (d : MotorDirection) (e : Elevator) (r : Row) → IsCabOnly r → Every IsCabOnly (clear_row d e r)
unfolding clear_row
clear_row-IsCabOnly MotorDirection.up e r (u, d) =
    Every->>= (any_result (requests_above e)) (λ a _. just (refl, rw d (if_same _)))
clear_row-IsCabOnly MotorDirection.down e r (u, d) =
    Every->>= (any_result (requests_below e)) (λ a _. just (rw u (if_same _), refl))
clear_row-IsCabOnly MotorDirection.stop e r (u, d) = just (refl, refl)

clear-IsBare : (e : Elevator) → IsBare e → Every IsBare (clear_at_current_floor e)
unfolding clear_at_current_floor
clear-IsBare e h = Every->>= (row-IsCabOnly e.floor e h) (λ r p.
    let r₁ = record r { cab = false } in
    let e₁ = record e { requests = set_row e.floor r₁ e.requests } in
    Every->>= (clear_row-IsCabOnly e.dir e₁ r₁ p)
      (λ r₂ q. just (set_row-IsBare e.floor r₂ e₁ q (set_row-IsBare e.floor r₁ e p h))))

abbrev pub LeavesBare : Outcome → Type 0
LeavesBare o = IsBare o.elevator

stop_here-LeavesBare :
    (e : Elevator) (cs : List Command) → IsBare e → Every LeavesBare (stop_here e cs)
unfolding stop_here
stop_here-LeavesBare e cs h = Every->>= (clear-IsBare e h) (λ e₁ p. just p)

arrive-LeavesBare :
    (b : State) (e : Elevator) (cs : List Command) → IsBare e → Every LeavesBare (arrive b e cs)
unfolding arrive
arrive-LeavesBare State.moving e cs h =
    Every->>= (any_result (should_stop e))
      (λ stops _. Every-if stops (λ _. stop_here-LeavesBare e cs h) (λ _. just h))
arrive-LeavesBare State.idle e cs h = just h
arrive-LeavesBare State.door_open e cs h = just h

pub arrival-LeavesBare : (e : Elevator) (f : ℤ) → IsBare e → Every LeavesBare (on_floor_arrival e f)
unfolding on_floor_arrival
arrival-LeavesBare e f h = arrive-LeavesBare e.behaviour (record e { floor = f }) _ h

leave_door-LeavesBare :
    (d : MotorDirection) (b : State) (e : Elevator) → IsBare e → Every LeavesBare (leave_door d b e)
unfolding leave_door
leave_door-LeavesBare d State.door_open e h = Every->>= (clear-IsBare e h) (λ e₁ p. just p)
leave_door-LeavesBare d State.moving e h = just h
leave_door-LeavesBare d State.idle e h = just h

time_out-LeavesBare : (b : State) (e : Elevator) → IsBare e → Every LeavesBare (time_out b e)
unfolding time_out
time_out-LeavesBare State.door_open e h =
    Every->>= (any_result (choose_direction e)) (λ x _. leave_door-LeavesBare x.0 x.1 _ h)
time_out-LeavesBare State.idle e h = just h
time_out-LeavesBare State.moving e h = just h

pub timeout-LeavesBare : (e : Elevator) → IsBare e → Every LeavesBare (on_door_timeout e)
unfolding on_door_timeout
timeout-LeavesBare e h =
    Every-if e.obstructed (λ _. just h) (λ _. time_out-LeavesBare e.behaviour e h)

set_off-LeavesBare :
    (d : MotorDirection) (b : State) (e : Elevator) → IsBare e → Every LeavesBare (set_off d b e)
unfolding set_off
set_off-LeavesBare d State.moving e h = just h
set_off-LeavesBare d State.door_open e h = Every->>= (clear-IsBare e h) (λ e₁ p. just p)
set_off-LeavesBare d State.idle e h = just h

requested-LeavesBare :
    (b : State) (e : Elevator) (f : ℤ) → IsBare e → Every LeavesBare (requested b e f)
unfolding requested
requested-LeavesBare State.door_open e f h =
    Every-if (eq_ℤ e.floor f) (λ _. Every->>= (clear-IsBare e h) (λ e₁ p. just p)) (λ _. just h)
requested-LeavesBare State.idle e f h =
    Every-if (eq_ℤ e.floor f) (λ _. Every->>= (clear-IsBare e h) (λ e₁ p. just p))
      (λ _. Every->>= (any_result (choose_direction e)) (λ x _. set_off-LeavesBare x.0 x.1 _ h))
requested-LeavesBare State.moving e f h = just h

pub press-LeavesBare :
    (e : Elevator) (f : ℤ)
    → IsBare e
    → Every LeavesBare (on_request_button_press e f ButtonType.cab)
unfolding on_request_button_press
press-LeavesBare e f h = Every->>= (row-IsCabOnly f e h) (λ r p.
    requested-LeavesBare e.behaviour _ f (set_row-IsBare f (put ButtonType.cab true r) e p h))
