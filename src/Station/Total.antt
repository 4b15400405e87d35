-- ===== src/Station/Total.antt =====
-- main.go: no handler reads outside an array while the floors are those of the building.
use heis_test.Prelude.{List, Bool, true, false, ◌||◌, Option}
use heis_test.Prelude.Int.{ℤ, eq_ℤ}
use heis_test.Station.Elevio.{ButtonType, MotorDirection, Command}
use heis_test.Station.Elevator.{
  State, Row, Elevator, set_row, or_else, not?, clear_row, clear_at_current_floor, choose_direction,
  choose_direction_of, should_stop, should_stop_of,
}
use heis_test.Station.Bounds.{
  Runs, ran, Runs->>=, Runs-if, Any, IsFloor, row-Runs, above-Runs, below-Runs, here-Runs,
}
use heis_test.Station.Fsm.{
  Outcome, on_request_button_press, on_floor_arrival, on_door_timeout, arrive, stop_here,
  leave_door, time_out, set_off, requested,
}

or_else-Runs :
    {A : Type 0} {o : Option Bool} {rest : Option A} (x : A)
    → Runs Any o
    → Runs Any rest
    → Runs Any (or_else o x rest)
or_else-Runs x (ran {a = true} p) q = ran tt
or_else-Runs x (ran {a = false} p) q = q

not?-Runs : {o : Option Bool} → Runs Any o → Runs Any (not? o)
not?-Runs (ran p) = ran tt

choose_direction-Runs : (e : Elevator) → IsFloor e.floor → Runs Any (choose_direction e)
unfolding choose_direction choose_direction_of
choose_direction-Runs e h = go e.dir
  where
    go : (d : MotorDirection) → Runs Any (choose_direction_of d e)
    go MotorDirection.up =
        or_else-Runs _ (above-Runs e h)
          (or_else-Runs _ (here-Runs e h) (or_else-Runs _ (below-Runs e h) (ran tt)))
    go MotorDirection.down =
        or_else-Runs _ (below-Runs e h)
          (or_else-Runs _ (here-Runs e h) (or_else-Runs _ (above-Runs e h) (ran tt)))
    go MotorDirection.stop =
        or_else-Runs _ (here-Runs e h)
          (or_else-Runs _ (above-Runs e h) (or_else-Runs _ (below-Runs e h) (ran tt)))

should_stop-Runs : (e : Elevator) → IsFloor e.floor → Runs Any (should_stop e)
unfolding should_stop should_stop_of
should_stop-Runs e h = go e.dir
  where
    go : (d : MotorDirection) → Runs Any (should_stop_of d e)
    go MotorDirection.down =
        Runs->>= (row-Runs e.floor e.requests h)
          (λ r _. Runs-if (r.hall_down || r.cab) (ran tt) (not?-Runs (below-Runs e h)))
    go MotorDirection.up =
        Runs->>= (row-Runs e.floor e.requests h)
          (λ r _. Runs-if (r.hall_up || r.cab) (ran tt) (not?-Runs (above-Runs e h)))
    go MotorDirection.stop = ran tt

clear_row-Runs :
    (d : MotorDirection) (e : Elevator) (r : Row) → IsFloor e.floor → Runs Any (clear_row d e r)
unfolding clear_row
clear_row-Runs MotorDirection.up e r h = Runs->>= (above-Runs e h) (λ _ _. ran tt)
clear_row-Runs MotorDirection.down e r h = Runs->>= (below-Runs e h) (λ _ _. ran tt)
clear_row-Runs MotorDirection.stop e r h = ran tt

abbrev pub IsInside : Elevator → Type 0
IsInside e = IsFloor e.floor

abbrev pub LeavesInside : Outcome → Type 0
LeavesInside o = IsInside o.elevator

clear-Runs : (e : Elevator) → IsInside e → Runs IsInside (clear_at_current_floor e)
unfolding clear_at_current_floor
clear-Runs e h = Runs->>= (row-Runs e.floor e.requests h) (λ r _.
    let r₁ = record r { cab = false } in
    let e₁ = record e { requests = set_row e.floor r₁ e.requests } in
    Runs->>= (clear_row-Runs e.dir e₁ r₁ h) (λ r₂ _. ran h))

arrive-Runs :
    (b : State) (e : Elevator) (cs : List Command) → IsInside e → Runs LeavesInside (arrive b e cs)
unfolding arrive stop_here
arrive-Runs State.moving e cs h =
    Runs->>= (should_stop-Runs e h)
      (λ stops _. Runs-if stops (Runs->>= (clear-Runs e h) (λ e₁ p. ran p)) (ran h))
arrive-Runs State.idle e cs h = ran h
arrive-Runs State.door_open e cs h = ran h

-- A car that arrives at a floor of the building gets a result.
pub arrival-Runs : (e : Elevator) (f : ℤ) → IsFloor f → Runs LeavesInside (on_floor_arrival e f)
unfolding on_floor_arrival
arrival-Runs e f h = arrive-Runs e.behaviour (record e { floor = f }) _ h

leave_door-Runs :
    (d : MotorDirection) (b : State) (e : Elevator)
    → IsInside e
    → Runs LeavesInside (leave_door d b e)
unfolding leave_door
leave_door-Runs d State.door_open e h = Runs->>= (clear-Runs e h) (λ e₁ p. ran p)
leave_door-Runs d State.moving e h = ran h
leave_door-Runs d State.idle e h = ran h

time_out-Runs : (b : State) (e : Elevator) → IsInside e → Runs LeavesInside (time_out b e)
unfolding time_out
time_out-Runs State.door_open e h =
    Runs->>= (choose_direction-Runs e h) (λ x _. leave_door-Runs x.0 x.1 _ h)
time_out-Runs State.idle e h = ran h
time_out-Runs State.moving e h = ran h

pub timeout-Runs : (e : Elevator) → IsInside e → Runs LeavesInside (on_door_timeout e)
unfolding on_door_timeout
timeout-Runs e h = Runs-if e.obstructed (ran h) (time_out-Runs e.behaviour e h)

set_off-Runs :
    (d : MotorDirection) (b : State) (e : Elevator) → IsInside e → Runs LeavesInside (set_off d b e)
unfolding set_off
set_off-Runs d State.moving e h = ran h
set_off-Runs d State.door_open e h = Runs->>= (clear-Runs e h) (λ e₁ p. ran p)
set_off-Runs d State.idle e h = ran h

requested-Runs :
    (b : State) (e : Elevator) (f : ℤ) → IsInside e → Runs LeavesInside (requested b e f)
unfolding requested
requested-Runs State.door_open e f h =
    Runs-if (eq_ℤ e.floor f) (Runs->>= (clear-Runs e h) (λ e₁ p. ran p)) (ran h)
requested-Runs State.idle e f h =
    Runs-if (eq_ℤ e.floor f) (Runs->>= (clear-Runs e h) (λ e₁ p. ran p))
      (Runs->>= (choose_direction-Runs e h) (λ x _. set_off-Runs x.0 x.1 _ h))
requested-Runs State.moving e f h = ran h

pub press-Runs :
    (e : Elevator) (f : ℤ) (b : ButtonType)
    → IsInside e
    → IsFloor f
    → Runs LeavesInside (on_request_button_press e f b)
unfolding on_request_button_press
press-Runs e f b h g = Runs->>= (row-Runs f e.requests g) (λ r _. requested-Runs e.behaviour _ f h)
