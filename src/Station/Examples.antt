-- ===== src/Station/Examples.antt =====
-- Concrete stations for the theorems on the program of the repository's root.
use heis_test.Prelude.{none, ◌↔◌, ◌<◌, ℕ, ◌≤◌, ◌≡◌, ◌≢◌, refl, [], ◌∷◌, true, false, some, arith}
use heis_test.Prelude.Int.{pos}
use heis_test.Station.Elevio.{ButtonType, MotorDirection, num_floors}
use heis_test.Station.Poll.{Pressed, poll_buttons}
use heis_test.Station.Elevator.{State}
use heis_test.Station.HallAssigner.{PeerId, ElevatorState, cost}
use heis_test.Station.World.{Station, initialise, ElevatorStateMsg, HallRequestMsg}
use heis_test.Station.Loop.{
  button, hall_rx, state_rx, handle, Reach, begun, after, on_hall_msg, on_state_msg,
}
use heis_test.Station.Bounds.{Runs, in_building}
use heis_test.Station.NoPanic.{IsHoused, handle-Runs}
use heis_test.Station.Serving.{hall_never_requested}
use heis_test.Station.Waiting.{IsTimed}
use heis_test.Station.Timely.{Reach-IsTimely}
use heis_test.Station.Visible.{IsVisible, Reach-IsVisible}
use heis_test.Station.Kept.{hall_request_kept}
use heis_test.Station.Exchange.{hall_message, hall_exchange_agrees}
use heis_test.Station.Cost.{cost-ends}
use heis_test.Station.Buttons.{Reports, poll_buttons-Reports}
use heis_test.Station.Buttons.Panics.{poll_buttons_panics}

abbrev me : PeerId
me = b'a' ∷ []

abbrev peer : PeerId
peer = b'b' ∷ []

abbrev start : Station
start = initialise me (pos 1) (pos 1) (pos 1)

abbrev peer_msg : ElevatorStateMsg
peer_msg = record {
  id = peer;
  floor = pos 3;
  dir = MotorDirection.stop;
  behaviour = State.idle;
  cab_requests = λ f. false;
}

abbrev hall_msg : HallRequestMsg
hall_msg = record { sender_id = peer; hall_requests = λ f. record { up = true; down = false } }

-- Another elevator is known, and hall calls arrive.
abbrev told : Station
told = on_hall_msg hall_msg (on_state_msg peer_msg start)

told-Reach : Reach me told
unfolding handle
told-Reach =
    after 20 (hall_rx hall_msg) (after 10 (state_rx peer_msg) (begun (pos 1) (pos 1) (pos 1)) refl)
      refl

hall_never_requested_example :
    ((told.e.requests 2).hall_up ≡ false) × ((told.e.requests 2).hall_down ≡ false)
hall_never_requested_example = hall_never_requested me told told-Reach 2

Reach-IsVisible_example : IsVisible told
Reach-IsVisible_example = Reach-IsVisible me told told-Reach

start-IsHoused : IsHoused start
unfolding initialise
start-IsHoused = record { inside = in_building 1 (omega arith) }

handle-Runs_example :
    Runs IsHoused (handle 10 (button (record { floor = pos 3; button = ButtonType.cab })) start)
handle-Runs_example =
    handle-Runs 10 (button (record { floor = pos 3; button = ButtonType.cab })) start start-IsHoused
      (in_building 3 (omega arith))

told-handled : handle 20 (hall_rx hall_msg) (on_state_msg peer_msg start) ≡ some told
unfolding handle
told-handled = refl

hall_request_kept_example :
    (((on_state_msg peer_msg start).hall_requests 2).up ≡ true → (told.hall_requests 2).up ≡ true)
    × (((on_state_msg peer_msg start).hall_requests 2).down ≡ true
        → (told.hall_requests 2).down ≡ true)
hall_request_kept_example =
    hall_request_kept 20 (hall_rx hall_msg) (on_state_msg peer_msg start) told 2 (λ e. ground arith)
      told-handled

abbrev away : ElevatorState
away = record {
  behaviour = State.moving;
  floor = pos 7;
  direction = MotorDirection.up;
  cab_requests = λ f. false;
}

cost-ends_example : (c : ℕ) × (cost away (pos 2) ButtonType.hall_up ≡ some c) × (c ≤ 102)
cost-ends_example = cost-ends away (pos 2) ButtonType.hall_up

abbrev nothing_pressed : Pressed
nothing_pressed f b = false

abbrev all_pressed : Pressed
all_pressed f b = true

poll_buttons-Reports_example :
    Runs (Reports 4 all_pressed nothing_pressed) (poll_buttons 4 all_pressed nothing_pressed)
poll_buttons-Reports_example = poll_buttons-Reports 4 all_pressed nothing_pressed (omega arith)

poll_buttons_panics_example : (poll_buttons 5 all_pressed nothing_pressed ≡ none) ↔ (num_floors < 5)
poll_buttons_panics_example = poll_buttons_panics 5 all_pressed nothing_pressed

abbrev other : Station
other = initialise peer (pos 2) (pos 2) (pos 2)

different : start.id ≢ other.id
unfolding initialise
different = λ e. ground arith

hall_exchange_agrees_example :
    (on_hall_msg (hall_message other) start).hall_requests 1
    ≡ (on_hall_msg (hall_message start) other).hall_requests 1
hall_exchange_agrees_example = hall_exchange_agrees start other 1 different

Reach-IsTimely_example : IsTimed told.timer.active told.e
Reach-IsTimely_example = Reach-IsTimely me told told-Reach
