-- ===== src/Station/NoPanic.antt =====
-- main.go: every event gets a result while the floors are those of the building.
use heis_test.Prelude.{
  ℕ, Bool, true, not, ◌&&◌, Option, none, some, arith, Bool-cases, inl, inr, ltb, if_pos, if_neg,
}
use heis_test.Prelude.Assoc
use heis_test.Prelude.Int.{ℤ}
use heis_test.Station.Elevio.{ButtonType, MotorDirection, num_floors}
use heis_test.Station.Elevator.{Requests, Elevator}
use heis_test.Station.Bounds.{
  Runs, ran, Runs->>=, Runs-if, Any, IsFloor, in_building, below-rounds, above-rounds,
}
use heis_test.Station.Total.{IsInside, LeavesInside, arrival-Runs, timeout-Runs, press-Runs}
use heis_test.Station.Fsm.{Outcome}
use heis_test.Station.HallAssigner.{PeerId-discrete, HallRequests, assign, is_door_open}
use heis_test.Station.Timer.{timed_out}
use heis_test.Station.World.{
  Station, reassign, reassign_if_master, take_outcome, is_master, light, set_hall, clear_served,
  clear_served_hall, requests_above_or_here, requests_below_or_here, broadcast_hall,
  broadcast_state, apply_mine, ElevatorStateMsg, HallRequestMsg,
}
use heis_test.Station.Loop.{
  Event, button, floor, obstruction, stop_button, door_tick, peer_update, state_rx, hall_rx, ack_rx,
  state_tick, hall_tick, handle, on_button, on_hall_button, on_floor, serve, on_obstruction,
  on_door_tick, on_peer_update, on_state_msg, on_hall_msg, is_changed_from, on_hall_tick,
}

-- What the hardware sends: floors of the building.
abbrev pub IsPossible : Event → Type 0
IsPossible (button b) = IsFloor b.floor
IsPossible (floor f) = IsFloor f
IsPossible (obstruction on) = Unit
IsPossible stop_button = Unit
IsPossible door_tick = Unit
IsPossible (peer_update pu) = Unit
IsPossible (state_rx m) = Unit
IsPossible (hall_rx m) = Unit
IsPossible ack_rx = Unit
IsPossible state_tick = Unit
IsPossible hall_tick = Unit

-- The car is at a floor of the building.
pub record IsHoused (s : Station) : Type 0 where
  pub inside : IsInside s.e

set_hall-Runs :
    (f : ℤ) (b : ButtonType) (on : Bool) (h : HallRequests)
    → IsFloor f
    → Runs Any (set_hall f b on h)
unfolding set_hall
set_hall-Runs f b on h (in_building n l) = elim (Bool-cases (ltb n 4)) [
  | inl t ↦ rw t (ran tt)
  | inr g ↦ ground arith
]

clear_served-Runs :
    (d : MotorDirection) (e : Elevator) (f : ℤ) (h : HallRequests)
    → IsFloor f
    → Runs Any (clear_served d e f h)
unfolding clear_served requests_above_or_here requests_below_or_here
clear_served-Runs MotorDirection.up e f h g = Runs->>= (set_hall-Runs f _ _ h g) (λ h₁ _.
    Runs->>= (above-rounds e f g) (λ more _. Runs-if more (ran tt) (set_hall-Runs f _ _ h₁ g)))
clear_served-Runs MotorDirection.down e f h g = Runs->>= (set_hall-Runs f _ _ h g) (λ h₁ _.
    Runs->>= (below-rounds e f g) (λ more _. Runs-if more (ran tt) (set_hall-Runs f _ _ h₁ g)))
clear_served-Runs MotorDirection.stop e f h g =
    Runs->>= (set_hall-Runs f _ _ h g) (λ h₁ _. set_hall-Runs f _ _ h₁ g)

light-IsHoused : (s : Station) → IsHoused s → IsHoused (light s)
unfolding light
light-IsHoused s h = record { inside = h.inside }

broadcast-IsHoused : (s : Station) → IsHoused s → IsHoused (broadcast_state s)
unfolding broadcast_state
broadcast-IsHoused s h = record { inside = h.inside }

broadcast_hall-IsHoused : (s : Station) → IsHoused s → IsHoused (broadcast_hall s)
unfolding broadcast_hall
broadcast_hall-IsHoused s h = record { inside = h.inside }

apply_mine-IsHoused : (o : Option Requests) (s : Station) → IsHoused s → IsHoused (apply_mine o s)
apply_mine-IsHoused none s h = h
apply_mine-IsHoused (some m) s h = record { inside = h.inside }

if_master-IsHoused : (s : Station) → IsHoused s → IsHoused (reassign_if_master s)
unfolding reassign_if_master reassign
if_master-IsHoused s h = elim (Bool-cases (is_master s)) [
  | inl t ↦ rw t (
      light-IsHoused _ (
        apply_mine-IsHoused (Assoc.get? PeerId-discrete s.id (assign s.hall_requests s.peer_states))
          s h))
  | inr f ↦ rw f h
]

take_outcome-IsHoused :
    (now : ℕ) (o : Outcome) (s : Station) → LeavesInside o → IsHoused (take_outcome now o s)
unfolding take_outcome
take_outcome-IsHoused now o s p = record { inside = p }

hall_button-Runs :
    (f : ℤ) (b : ButtonType) (s : Station)
    → IsHoused s
    → IsFloor f
    → Runs IsHoused (on_hall_button f b s)
unfolding on_hall_button
hall_button-Runs f b s h g = Runs->>= (set_hall-Runs f b true s.hall_requests g) (λ hall _.
    ran (broadcast_hall-IsHoused _ (if_master-IsHoused _ (record { inside = h.inside }))))

button-Runs :
    (now : ℕ) (b : ButtonType) (f : ℤ) (s : Station)
    → IsHoused s
    → IsFloor f
    → Runs IsHoused (on_button now b f s)
unfolding on_button
button-Runs now ButtonType.cab f s h g =
    Runs->>= (press-Runs s.e f ButtonType.cab h.inside g)
      (λ o p. ran (broadcast-IsHoused _ (light-IsHoused _ (take_outcome-IsHoused now o s p))))
button-Runs now ButtonType.hall_up f s h g = hall_button-Runs f ButtonType.hall_up s h g
button-Runs now ButtonType.hall_down f s h g = hall_button-Runs f ButtonType.hall_down s h g

serve-Runs : (f : ℤ) (s : Station) → IsHoused s → IsFloor f → Runs IsHoused (serve f s)
unfolding serve clear_served_hall
serve-Runs f s h g = Runs->>= (clear_served-Runs s.e.dir s.e f s.hall_requests g) (λ hall _.
    ran (broadcast_hall-IsHoused _ (if_master-IsHoused _ (record { inside = h.inside }))))

floor-Runs : (now : ℕ) (f : ℤ) (s : Station) → IsFloor f → Runs IsHoused (on_floor now f s)
unfolding on_floor
floor-Runs now f s g = Runs->>= (arrival-Runs s.e f g) (λ o p.
    let h = take_outcome-IsHoused now o s p in
    Runs->>= {P = IsHoused}
      (Runs-if o.start_timer (serve-Runs f (take_outcome now o s) h g) (ran h))
      (λ t h₂. ran (broadcast-IsHoused _ (light-IsHoused t h₂))))

obstruction-IsHoused :
    (now : ℕ) (on : Bool) (s : Station) → IsHoused s → IsHoused (on_obstruction now on s)
unfolding on_obstruction
obstruction-IsHoused now on s h = elim (Bool-cases (not on && is_door_open s.e.behaviour)) [
  | inl t ↦ rw t (record { inside = h.inside })
  | inr f ↦ rw f (record { inside = h.inside })
]

door_tick-Runs : (now : ℕ) (s : Station) → IsHoused s → Runs IsHoused (on_door_tick now s)
unfolding on_door_tick
door_tick-Runs now s h =
    Runs-if (timed_out now s.timer)
      (Runs->>= (timeout-Runs s.e h.inside)
        (λ o p. ran (broadcast-IsHoused _ (light-IsHoused _ (take_outcome-IsHoused now o _ p)))))
      (ran h)

state_msg-IsHoused : (m : ElevatorStateMsg) (s : Station) → IsHoused s → IsHoused (on_state_msg m s)
unfolding on_state_msg
state_msg-IsHoused m s h = elim (PeerId-discrete m.id s.id) [
  | yes p ↦ rw (if_pos (PeerId-discrete m.id s.id) p) h
  | no p ↦
      rw (if_neg (PeerId-discrete m.id s.id) p)
        (if_master-IsHoused _ (record { inside = h.inside }))
]

hall_msg-IsHoused : (m : HallRequestMsg) (s : Station) → IsHoused s → IsHoused (on_hall_msg m s)
unfolding on_hall_msg
hall_msg-IsHoused m s h = elim (PeerId-discrete m.sender_id s.id) [
  | yes p ↦ rw (if_pos (PeerId-discrete m.sender_id s.id) p) h
  | no p ↦
      rw (if_neg (PeerId-discrete m.sender_id s.id) p)
        (elim (Bool-cases (is_changed_from m.hall_requests s.hall_requests num_floors 0)) [
          | inl t ↦ rw t (if_master-IsHoused _ (record { inside = h.inside }))
          | inr f ↦ rw f (record { inside = h.inside })
        ])
]

hall_tick-IsHoused : (s : Station) → IsHoused s → IsHoused (on_hall_tick s)
unfolding on_hall_tick
hall_tick-IsHoused s h = elim (Bool-cases (is_master s)) [
  | inl t ↦ rw t (broadcast_hall-IsHoused s h)
  | inr f ↦ rw f h
]

-- With the car at a floor of the building, every event whose floor, if it has one, is a floor of
-- the building gets a result: no handler indexes outside an array. The car is at a floor of the
-- building in the result too.
pub handle-Runs :
    (now : ℕ) (ev : Event) (s : Station)
    → IsHoused s
    → IsPossible ev
    → Runs IsHoused (handle now ev s)
unfolding handle on_peer_update
handle-Runs now (button b) s h g = button-Runs now b.button b.floor s h g
handle-Runs now (floor f) s h g = floor-Runs now f s g
handle-Runs now (obstruction on) s h g = ran (obstruction-IsHoused now on s h)
handle-Runs now stop_button s h g = ran h
handle-Runs now door_tick s h g = door_tick-Runs now s h
handle-Runs now (peer_update pu) s h g = ran (if_master-IsHoused _ (record { inside = h.inside }))
handle-Runs now (state_rx m) s h g = ran (state_msg-IsHoused m s h)
handle-Runs now (hall_rx m) s h g = ran (hall_msg-IsHoused m s h)
handle-Runs now ack_rx s h g = ran h
handle-Runs now state_tick s h g = ran (broadcast-IsHoused s h)
handle-Runs now hall_tick s h g = ran (hall_tick-IsHoused s h)
