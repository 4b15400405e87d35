-- ===== src/Station/Loop.antt =====
-- main.go: the cases of the `select` in the loop of `main`. An index outside an array is `none`.
use heis_test.Prelude.{
  ℕ, zero, suc, ◌≡◌, List, [], ◌∷◌, Bool, true, false, not, ◌&&◌, ◌||◌, Option, some, if◌then◌else◌,
  ite,
}
use heis_test.Prelude.Assoc
use heis_test.Prelude.Int.{ℤ}
use heis_test.Station.Elevio.{ButtonType, ButtonEvent, num_floors}
use heis_test.Station.Elevator.{◌>>=◌}
use heis_test.Station.Fsm.{on_request_button_press, on_floor_arrival, on_door_timeout}
use heis_test.Station.HallAssigner.{
  PeerId, PeerId-discrete, HallRequests, ElevatorState, Elevators, is_door_open,
}
use heis_test.Station.Timer.{start, stop, timed_out}
use heis_test.Station.World.{
  Station, ElevatorStateMsg, HallRequestMsg, light, broadcast_state, broadcast_hall,
  reassign_if_master, take_outcome, set_hall, clear_served_hall, is_master, initialise,
}
use heis_test.Station.Peers.{PeerUpdate}

pub data Event : Type 0 where
  button : ButtonEvent → Event
  floor : ℤ → Event
  obstruction : Bool → Event
  stop_button : Event
  door_tick : Event
  peer_update : PeerUpdate → Event
  state_rx : ElevatorStateMsg → Event
  hall_rx : HallRequestMsg → Event
  ack_rx : Event
  state_tick : Event
  hall_tick : Event

-- The case of a hall button.
unfoldable pub on_hall_button : ℤ → ButtonType → Station → Option Station
on_hall_button f b s = set_hall f b true s.hall_requests >>= λ h.
    some (broadcast_hall (reassign_if_master (record s { hall_requests = h })))

-- `case btn := <-chButtons`.
unfoldable pub on_button : ℕ → ButtonType → ℤ → Station → Option Station
on_button now ButtonType.cab f s = on_request_button_press s.e f ButtonType.cab >>= λ o.
    some (broadcast_state (light (take_outcome now o s)))
on_button now ButtonType.hall_up f s = on_hall_button f ButtonType.hall_up s
on_button now ButtonType.hall_down f s = on_hall_button f ButtonType.hall_down s

-- `if startTimer { ... }` at a floor, with the timer started before.
unfoldable pub serve : ℤ → Station → Option Station
serve f s = clear_served_hall s.e f s.hall_requests >>= λ h.
    some (broadcast_hall (reassign_if_master (record s { hall_requests = h })))

-- `case floor := <-chFloor`.
unfoldable pub on_floor : ℕ → ℤ → Station → Option Station
on_floor now f s = on_floor_arrival s.e f >>= λ o.
    let s₁ = take_outcome now o s in
    (if o.start_timer then serve f s₁ else some s₁) >>= λ s₂. some (broadcast_state (light s₂))

-- `case obstructed := <-chObstruction`.
unfoldable pub on_obstruction : ℕ → Bool → Station → Station
on_obstruction now on s =
    let s₁ = record s { e = record (s.e) { obstructed = on } } in
    if not on && is_door_open s.e.behaviour
    then record s₁ { timer = start now s.e.door_open_duration s.timer }
    else s₁

-- `case <-doorTicker.C`.
unfoldable pub on_door_tick : ℕ → Station → Option Station
on_door_tick now s =
    if timed_out now s.timer
    then (on_door_timeout s.e >>= λ o.
        some (broadcast_state (light (take_outcome now o (record s { timer = stop s.timer })))))
    else some s

-- `for _, lostID := range pu.Lost { delete(peerStates, lostID) }`.
unfoldable pub delete_all : List PeerId → Elevators → Elevators
delete_all [] es = es
delete_all (lost ∷ ids) es = delete_all ids (Assoc.delete PeerId-discrete lost es)

-- `case pu := <-chPeerUpdates`.
unfoldable pub on_peer_update : PeerUpdate → Station → Station
on_peer_update pu s =
    reassign_if_master
      (record s { peer_list = pu.peers; peer_states = delete_all pu.lost s.peer_states })

abbrev pub state_of : ElevatorStateMsg → ElevatorState
state_of m = record {
  behaviour = m.behaviour;
  floor = m.floor;
  direction = m.dir;
  cab_requests = m.cab_requests;
}

-- `case stateMsg := <-chStateRx`.
unfoldable pub on_state_msg : ElevatorStateMsg → Station → Station
on_state_msg m s = ite (PeerId-discrete m.id s.id) s (
    reassign_if_master
      (record s { peer_states = Assoc.put PeerId-discrete m.id (state_of m) s.peer_states }))

-- The loop that merges the incoming hall requests, and its `changed`: over the floors from `f`,
-- with the floors that are left.
unfoldable pub merge_hall : HallRequests → HallRequests → HallRequests
merge_hall theirs mine f = record {
  up = (mine f).up || (theirs f).up;
  down = (mine f).down || (theirs f).down;
}

unfoldable pub is_changed_from : HallRequests → HallRequests → ℕ → ℕ → Bool
is_changed_from theirs mine zero f = false
is_changed_from theirs mine (suc n) f =
    (theirs f).up && not ((mine f).up)
    || (theirs f).down && not ((mine f).down)
    || is_changed_from theirs mine n (suc f)

-- `case hallMsg := <-chHallRx`.
unfoldable pub on_hall_msg : HallRequestMsg → Station → Station
on_hall_msg m s =
    let changed = is_changed_from m.hall_requests s.hall_requests num_floors 0 in
    let s₁ = record s { hall_requests = merge_hall m.hall_requests s.hall_requests } in
    ite (PeerId-discrete m.sender_id s.id) s (if changed then reassign_if_master s₁ else s₁)

-- `case <-hallTicker.C`.
unfoldable pub on_hall_tick : Station → Station
on_hall_tick s = if is_master s then broadcast_hall s else s

unfoldable pub handle : ℕ → Event → Station → Option Station
handle now (button b) s = on_button now b.button b.floor s
handle now (floor f) s = on_floor now f s
handle now (obstruction on) s = some (on_obstruction now on s)
handle now stop_button s = some s
handle now door_tick s = on_door_tick now s
handle now (peer_update pu) s = some (on_peer_update pu s)
handle now (state_rx m) s = some (on_state_msg m s)
handle now (hall_rx m) s = some (on_hall_msg m s)
handle now ack_rx s = some s
handle now state_tick s = some (broadcast_state s)
handle now hall_tick s = some (on_hall_tick s)

-- What can be reached from the start, as long as no handler panics.
pub data Reach (id : PeerId) : Station → Type 0 where
  begun : (first second arrived : ℤ) → Reach id (initialise id first second arrived)
  after :
      {s t : Station} (now : ℕ) (ev : Event) → Reach id s → handle now ev s ≡ some t → Reach id t
