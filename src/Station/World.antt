-- ===== src/Station/World.antt =====
-- main.go: what `main` Keeps between two events, and the closures and helpers that its loop calls.
-- What the program sends, to the hardware and to the network, is logged in the order of the calls.
use heis_test.Prelude.{
  ℕ, List, [], ◌∷◌, ◌++◌, Bool, true, false, ◌==◌, Option, none, some, map, ltb, if◌then◌else◌, ite,
}
use heis_test.Prelude.Assoc
use heis_test.Prelude.Int.{ℤ, pos, negsuc, ◌+ℤ◌, ◌-ℤ◌, pos_part, eq_ℤ}
use heis_test.Station.Elevio.{
  ButtonType, MotorDirection, Command, set_motor_direction, set_floor_indicator, num_floors,
}
use heis_test.Station.Elevator.{
  State, Requests, Elevator, uninitialized_elevator, ◌>>=◌, any_request,
}
use heis_test.Station.Fsm.{Outcome, set_all_lights, on_init_between_floors}
use heis_test.Station.HallAssigner.{
  PeerId, PeerId-discrete, HallRow, HallRequests, Elevators, assign,
}
use heis_test.Station.Timer.{Timer, idle_timer, start}

pub record ElevatorStateMsg : Type 0 where
  pub id : PeerId
  pub floor : ℤ
  pub dir : MotorDirection
  pub behaviour : State
  pub cab_requests : ℕ → Bool

pub record HallRequestMsg : Type 0 where
  pub sender_id : PeerId
  pub hall_requests : HallRequests

-- A call that reaches the hardware, or a message on a channel of the network.
pub data Output : Type 0 where
  command : Command → Output
  state_tx : ElevatorStateMsg → Output
  hall_tx : HallRequestMsg → Output

pub record Station : Type 0 where
  pub id : PeerId
  pub e : Elevator
  pub timer : Timer
  pub hall_requests : HallRequests
  pub peer_states : Elevators
  pub peer_list : List PeerId
  pub log : List Output

abbrev pub emit : List Output → Station → Station
emit os s = record s { log = s.log ++ os }

abbrev pub tell : List Command → Station → Station
tell cs s = emit (map command cs) s

abbrev pub no_hall_requests : HallRequests
no_hall_requests f = record { up = false; down = false }

abbrev station : PeerId → Elevator → List Command → Station
station id e cs = record {
  id = id;
  e = e;
  timer = idle_timer;
  hall_requests = no_hall_requests;
  peer_states = [];
  peer_list = [];
  log = map command cs;
}

-- `main` up to its loop: two readings of the floor sensor, and the floor that is reached when the
-- first one is between floors.
unfoldable pub initialise : PeerId → ℤ → ℤ → ℤ → Station
initialise id first second arrived =
    let o = on_init_between_floors uninitialized_elevator in
    if eq_ℤ first (negsuc 0)
    then station id
        (record (o.elevator) { floor = arrived; dir = MotorDirection.stop; behaviour = State.idle })
        (o.commands ++ (set_motor_direction MotorDirection.stop ∷ set_floor_indicator arrived ∷ []))
    else station id (record uninitialized_elevator { floor = second })
        (set_floor_indicator second ∷ [])

abbrev pub first_or : PeerId → List PeerId → PeerId
first_or id [] = id
first_or id (p ∷ ps) = p

-- `masterID`, and its comparison with the station's own ID.
unfoldable pub master_id : Station → PeerId
master_id s = first_or s.id s.peer_list

unfoldable pub is_master : Station → Bool
is_master s = ite (PeerId-discrete (master_id s) s.id) true false

-- `broadcastState`.
unfoldable pub broadcast_state : Station → Station
broadcast_state s =
    emit
      (state_tx (record {
        id = s.id;
        floor = s.e.floor;
        dir = s.e.dir;
        behaviour = s.e.behaviour;
        cab_requests = λ f. (s.e.requests f).cab;
      })
        ∷ [])
      s

-- The message that is sent on `chHallTx`.
unfoldable pub broadcast_hall : Station → Station
broadcast_hall s =
    emit (hall_tx (record { sender_id = s.id; hall_requests = s.hall_requests }) ∷ []) s

-- `elevator.SetAllLights(e)`.
unfoldable pub light : Station → Station
light s = tell (set_all_lights s.e) s

-- The loop of `reassign` that copies the hall columns.
unfoldable pub copy_hall : Requests → Requests → Requests
copy_hall mine rs f = record (rs f) { hall_up = (mine f).hall_up; hall_down = (mine f).hall_down }

abbrev pub apply_mine : Option Requests → Station → Station
apply_mine none s = s
apply_mine (some mine) s = record s { e = record (s.e) { requests = copy_hall mine s.e.requests } }

-- `reassign`.
unfoldable pub reassign : Station → Station
reassign s =
    light (apply_mine (Assoc.get? PeerId-discrete s.id (assign s.hall_requests s.peer_states)) s)

-- `if masterID() == id { reassign() }`.
unfoldable pub reassign_if_master : Station → Station
reassign_if_master s = if is_master s then reassign s else s

-- `e, startTimer = ...` and the test of `startTimer` that follows.
unfoldable pub take_outcome : ℕ → Outcome → Station → Station
take_outcome now o s = tell o.commands (record s {
  e = o.elevator;
  timer = if o.start_timer then start now o.elevator.door_open_duration s.timer else s.timer;
})

-- `hallRequests[floor][btn] = on`, for a hall button.
abbrev pub put_hall : ButtonType → Bool → HallRow → HallRow
put_hall ButtonType.hall_up on r = record r { up = on }
put_hall ButtonType.hall_down on r = record r { down = on }
put_hall ButtonType.cab on r = r

unfoldable pub set_hall : ℤ → ButtonType → Bool → HallRequests → Option HallRequests
set_hall (pos f) b on h =
    if ltb f num_floors then some (λ g. if f == g then put_hall b on (h g) else h g) else none
set_hall (negsuc f) b on h = none

-- `requestsAboveOrHere` and `requestsBelowOrHere`.
unfoldable pub requests_above_or_here : Elevator → ℤ → Option Bool
requests_above_or_here e floor = any_request e.requests (pos_part (pos num_floors -ℤ floor)) floor

unfoldable pub requests_below_or_here : Elevator → ℤ → Option Bool
requests_below_or_here e floor = any_request e.requests (pos_part (floor +ℤ pos 1)) (pos 0)

-- `clearServedHall`, by the direction.
unfoldable pub clear_served : MotorDirection → Elevator → ℤ → HallRequests → Option HallRequests
clear_served MotorDirection.up e floor h = set_hall floor ButtonType.hall_up false h >>= λ h₁.
    requests_above_or_here e floor >>= λ more.
    if more then some h₁ else set_hall floor ButtonType.hall_down false h₁
clear_served MotorDirection.down e floor h = set_hall floor ButtonType.hall_down false h >>= λ h₁.
    requests_below_or_here e floor >>= λ more.
    if more then some h₁ else set_hall floor ButtonType.hall_up false h₁
clear_served MotorDirection.stop e floor h =
    set_hall floor ButtonType.hall_up false h >>= λ h₁. set_hall floor ButtonType.hall_down false h₁

unfoldable pub clear_served_hall : Elevator → ℤ → HallRequests → Option HallRequests
clear_served_hall e floor h = clear_served e.dir e floor h
