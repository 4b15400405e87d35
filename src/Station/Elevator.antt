-- ===== src/Station/Elevator.antt =====
-- elevator/types.go and elevator/requests.go. An index outside an array is a panic, here `none`.
use heis_test.Prelude.{
  ℕ, zero, suc, Bool, true, false, not, ◌&&◌, ◌||◌, ◌==◌, Option, none, some, ltb, if◌then◌else◌,
}
use heis_test.Prelude.Int.{ℤ, pos, negsuc, ◌+ℤ◌, ◌-ℤ◌, pos_part}
use heis_test.Station.Elevio.{ButtonType, MotorDirection, num_floors}

pub data State : Type 0 where
  idle door_open moving : State

-- One row of the request matrix, `[NumButtons]bool`.
pub record Row : Type 0 where
  pub hall_up : Bool
  pub hall_down : Bool
  pub cab : Bool

abbrev pub put : ButtonType → Bool → Row → Row
put ButtonType.hall_up v r = record r { hall_up = v }
put ButtonType.hall_down v r = record r { hall_down = v }
put ButtonType.cab v r = record r { cab = v }

-- An array of rows, read at the floors below `num_floors` only.
abbrev pub Requests : Type 0
Requests = ℕ → Row

-- The configuration's float is a number of milliseconds here.
pub record Elevator : Type 0 where
  pub floor : ℤ
  pub dir : MotorDirection
  pub requests : Requests
  pub behaviour : State
  pub door_open_duration : ℕ
  pub obstructed : Bool

abbrev pub no_requests : Requests
no_requests f = record { hall_up = false; hall_down = false; cab = false }

-- `UninitializedElevator`, with the duration of `DefaultConfig`.
unfoldable pub uninitialized_elevator : Elevator
uninitialized_elevator = record {
  floor = negsuc 0;
  dir = MotorDirection.stop;
  requests = no_requests;
  behaviour = State.idle;
  door_open_duration = 3000;
  obstructed = false;
}

infixl 5 ◌>>=◌
abbrev pub ◌>>=◌ {ℓ} : {A B : Type ℓ} → Option A → (A → Option B) → Option B
none >>= f = none
some a >>= f = f a

-- `requests[floor]`.
unfoldable pub row : ℤ → Requests → Option Row
row (pos f) rs = if ltb f num_floors then some (rs f) else none
row (negsuc f) rs = none

-- `requests[floor] = r`, at a floor that was read before.
unfoldable pub set_row : ℤ → Row → Requests → Requests
set_row (pos f) r rs g = if f == g then r else rs g
set_row (negsuc f) r rs g = rs g

-- The inner loop over the buttons of a floor.
abbrev pub any_button : Row → Bool
any_button r = r.hall_up || r.hall_down || r.cab

-- The two nested loops of `requestsAbove` and its kin: the rounds that are left, and the floor.
unfoldable pub any_request : Requests → ℕ → ℤ → Option Bool
any_request rs zero f = some false
any_request rs (suc n) f =
    let rest = any_request rs n (f +ℤ pos 1) in
    row f rs >>= λ r. if any_button r then some true else rest

-- `requestsAbove`.
unfoldable pub requests_above : Elevator → Option Bool
requests_above e =
    any_request e.requests (pos_part (pos num_floors -ℤ (e.floor +ℤ pos 1))) (e.floor +ℤ pos 1)

-- `requestsBelow`.
unfoldable pub requests_below : Elevator → Option Bool
requests_below e = any_request e.requests (pos_part e.floor) (pos 0)

-- `requestsHere`.
unfoldable pub requests_here : Elevator → Option Bool
requests_here e = row e.floor e.requests >>= λ r. some (any_button r)

-- `if x { return y }`, and what follows.
abbrev pub or_else {ℓ} : {A : Type ℓ} → Option Bool → A → Option A → Option A
or_else none y rest = none
or_else (some true) y rest = some y
or_else (some false) y rest = rest

-- `ChooseDirection`.
unfoldable pub choose_direction_of : MotorDirection → Elevator → Option (MotorDirection × State)
choose_direction_of MotorDirection.up e =
    or_else (requests_above e) (MotorDirection.up, State.moving)
      (or_else (requests_here e) (MotorDirection.down, State.door_open)
        (or_else (requests_below e) (MotorDirection.down, State.moving)
          (some (MotorDirection.stop, State.idle))))
choose_direction_of MotorDirection.down e =
    or_else (requests_below e) (MotorDirection.down, State.moving)
      (or_else (requests_here e) (MotorDirection.up, State.door_open)
        (or_else (requests_above e) (MotorDirection.up, State.moving)
          (some (MotorDirection.stop, State.idle))))
choose_direction_of MotorDirection.stop e =
    or_else (requests_here e) (MotorDirection.stop, State.door_open)
      (or_else (requests_above e) (MotorDirection.up, State.moving)
        (or_else (requests_below e) (MotorDirection.down, State.moving)
          (some (MotorDirection.stop, State.idle))))

unfoldable pub choose_direction : Elevator → Option (MotorDirection × State)
choose_direction e = choose_direction_of e.dir e

abbrev pub not? : Option Bool → Option Bool
not? none = none
not? (some b) = some (not b)

-- `ShouldStop`.
unfoldable pub should_stop_of : MotorDirection → Elevator → Option Bool
should_stop_of MotorDirection.down e = row e.floor e.requests >>= λ r.
    if r.hall_down || r.cab then some true else not? (requests_below e)
should_stop_of MotorDirection.up e = row e.floor e.requests >>= λ r.
    if r.hall_up || r.cab then some true else not? (requests_above e)
should_stop_of MotorDirection.stop e = some true

unfoldable pub should_stop : Elevator → Option Bool
should_stop e = should_stop_of e.dir e

-- The `switch` of `ClearAtCurrentFloor`: the row without the cab request, to the row that is left.
unfoldable pub clear_row : MotorDirection → Elevator → Row → Option Row
clear_row MotorDirection.up e r = requests_above e >>= λ above. some (record r {
  hall_up = false;
  hall_down = if not above && not r.hall_up then false else r.hall_down;
})
clear_row MotorDirection.down e r = requests_below e >>= λ below. some (record r {
  hall_up = if not below && not r.hall_down then false else r.hall_up;
  hall_down = false;
})
clear_row MotorDirection.stop e r = some (record r { hall_up = false; hall_down = false })

-- `ClearAtCurrentFloor`.
unfoldable pub clear_at_current_floor : Elevator → Option Elevator
clear_at_current_floor e = row e.floor e.requests >>= λ r.
    let r₁ = record r { cab = false } in
    let e₁ = record e { requests = set_row e.floor r₁ e.requests } in
    clear_row e.dir e₁ r₁ >>= λ r₂. some (record e₁ { requests = set_row e.floor r₂ e₁.requests })
