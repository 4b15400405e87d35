-- ===== src/Station/Visible.antt =====
-- The loop of main.go: at every moment the hardware shows the state of the car.
use heis_test.Prelude.{
  ℕ, ◌≡◌, refl, map, ◌++◌, List, [], ◌∷◌, Bool, true, false, Option, none, some, Bool-cases, inl,
  inr, if_pos, if_neg, ◌&&◌, not,
}
use heis_test.Prelude.Assoc
use heis_test.Prelude.Int.{ℤ, negsuc, eq_ℤ}
use heis_test.Station.Elevio.{ButtonType, MotorDirection, num_floors}
use heis_test.Station.Elevator.{State, Requests, Elevator, uninitialized_elevator}
use heis_test.Station.Fsm.{set_all_lights, Outcome, on_init_between_floors}
use heis_test.Station.HallAssigner.{PeerId, PeerId-discrete, assign, is_door_open}
use heis_test.Station.Partial.{Every, just, Every->>=, Every-if, any_result, Every-some}
use heis_test.Station.Timer.{timed_out, stop}
use heis_test.Station.World.{
  Station, reassign, reassign_if_master, take_outcome, is_master, light, set_hall,
  clear_served_hall, broadcast_hall, broadcast_state, initialise, Output, command, state_tx,
  hall_tx, apply_mine, ElevatorStateMsg, HallRequestMsg,
}
use heis_test.Station.Signals.{
  IsShown, Shows, motor_after, lamp_after, motor_after-append, lamp_after-append,
  motor_after-lights_from, lamp_after-lights_from,
}
use heis_test.Station.Door.{arrival-Shows, timeout-Shows, press-Shows}
use heis_test.Station.Loop.{
  Event, button, floor, obstruction, stop_button, door_tick, peer_update, state_rx, hall_rx, ack_rx,
  state_tick, hall_tick, handle, on_button, on_hall_button, on_floor, serve, on_obstruction,
  on_door_tick, on_peer_update, on_state_msg, on_hall_msg, is_changed_from, on_hall_tick, Reach,
  begun, after,
}

-- What the log says, when the motor stood still and the lamp was off before it.
abbrev pub shown_motor : List Output → MotorDirection
shown_motor os = motor_after MotorDirection.stop os

abbrev pub shown_lamp : List Output → Bool
shown_lamp os = lamp_after false os

-- The hardware shows the state of the station's car.
pub record IsVisible (s : Station) : Type 0 where
  pub shown : IsShown (shown_motor s.log) (shown_lamp s.log) s.e.behaviour s.e.dir

-- Calls after which the hardware shows the same.
record IsQuiet (os : List Output) : Type 0 where
  pub motor : (m : MotorDirection) → motor_after m os ≡ m
  pub lamp : (l : Bool) → lamp_after l os ≡ l

append-IsShown :
    {b : State} {d : MotorDirection} (log os : List Output)
    → IsQuiet os
    → IsShown (shown_motor log) (shown_lamp log) b d
    → IsShown (shown_motor (log ++ os)) (shown_lamp (log ++ os)) b d
append-IsShown log os q h = rw (motor_after-append MotorDirection.stop log os) (
    rw (lamp_after-append false log os)
      (rw (q.motor (shown_motor log)) (rw (q.lamp (shown_lamp log)) h)))

lights-IsQuiet : (e : Elevator) → IsQuiet (map command (set_all_lights e))
unfolding set_all_lights
lights-IsQuiet e = record {
  motor = λ m. motor_after-lights_from m e num_floors 0;
  lamp = λ l. lamp_after-lights_from l e num_floors 0;
}

light-IsVisible : (s : Station) → IsVisible s → IsVisible (light s)
unfolding light
light-IsVisible s h = record { shown = append-IsShown s.log _ (lights-IsQuiet s.e) h.shown }

state_tx-IsQuiet : (m : ElevatorStateMsg) → IsQuiet (state_tx m ∷ [])
unfolding motor_after lamp_after
state_tx-IsQuiet m = record { motor = λ m. refl; lamp = λ l. refl }

hall_tx-IsQuiet : (m : HallRequestMsg) → IsQuiet (hall_tx m ∷ [])
unfolding motor_after lamp_after
hall_tx-IsQuiet m = record { motor = λ m. refl; lamp = λ l. refl }

broadcast-IsVisible : (s : Station) → IsVisible s → IsVisible (broadcast_state s)
unfolding broadcast_state
broadcast-IsVisible s h = record { shown = append-IsShown s.log _ (state_tx-IsQuiet _) h.shown }

broadcast_hall-IsVisible : (s : Station) → IsVisible s → IsVisible (broadcast_hall s)
unfolding broadcast_hall
broadcast_hall-IsVisible s h = record { shown = append-IsShown s.log _ (hall_tx-IsQuiet _) h.shown }

apply_mine-IsVisible :
    (o : Option Requests) (s : Station) → IsVisible s → IsVisible (apply_mine o s)
apply_mine-IsVisible none s h = h
apply_mine-IsVisible (some m) s h = record { shown = h.shown }

reassign-IsVisible : (s : Station) → IsVisible s → IsVisible (reassign s)
unfolding reassign
reassign-IsVisible s h = light-IsVisible _ (
    apply_mine-IsVisible (Assoc.get? PeerId-discrete s.id (assign s.hall_requests s.peer_states)) s
      h)

if_master-IsVisible : (s : Station) → IsVisible s → IsVisible (reassign_if_master s)
unfolding reassign_if_master
if_master-IsVisible s h = elim (Bool-cases (is_master s)) [
  | inl t ↦ rw t (reassign-IsVisible s h)
  | inr f ↦ rw f h
]

take_outcome-IsVisible :
    (now : ℕ) (o : Outcome) (s : Station)
    → Shows (shown_motor s.log) (shown_lamp s.log) o
    → IsVisible (take_outcome now o s)
unfolding take_outcome
take_outcome-IsVisible now o s h = record {
  shown =
      rw (motor_after-append MotorDirection.stop s.log (map command o.commands))
        (rw (lamp_after-append false s.log (map command o.commands)) h);
}

hall_button-IsVisible :
    (f : ℤ) (b : ButtonType) (s : Station) → IsVisible s → Every IsVisible (on_hall_button f b s)
unfolding on_hall_button
hall_button-IsVisible f b s h =
    Every->>= (any_result (set_hall f b true s.hall_requests)) (λ hall _.
      just (broadcast_hall-IsVisible _ (if_master-IsVisible _ (record { shown = h.shown }))))

button-IsVisible :
    (now : ℕ) (b : ButtonType) (f : ℤ) (s : Station)
    → IsVisible s
    → Every IsVisible (on_button now b f s)
unfolding on_button
button-IsVisible now ButtonType.cab f s h =
    Every->>= (press-Shows _ _ s.e f ButtonType.cab h.shown)
      (λ o p. just (broadcast-IsVisible _ (light-IsVisible _ (take_outcome-IsVisible now o s p))))
button-IsVisible now ButtonType.hall_up f s h = hall_button-IsVisible f ButtonType.hall_up s h
button-IsVisible now ButtonType.hall_down f s h = hall_button-IsVisible f ButtonType.hall_down s h

serve-IsVisible : (f : ℤ) (s : Station) → IsVisible s → Every IsVisible (serve f s)
unfolding serve
serve-IsVisible f s h = Every->>= (any_result (clear_served_hall s.e f s.hall_requests)) (λ hall _.
    just (broadcast_hall-IsVisible _ (if_master-IsVisible _ (record { shown = h.shown }))))

floor-IsVisible : (now : ℕ) (f : ℤ) (s : Station) → IsVisible s → Every IsVisible (on_floor now f s)
unfolding on_floor
floor-IsVisible now f s h = Every->>= (arrival-Shows _ _ s.e f h.shown) (λ o p.
    let h₁ = take_outcome-IsVisible now o s p in
    Every->>= {P = IsVisible}
      (Every-if o.start_timer (λ _. serve-IsVisible f (take_outcome now o s) h₁) (λ _. just h₁))
      (λ t h₂. just (broadcast-IsVisible _ (light-IsVisible t h₂))))

obstruction-IsVisible :
    (now : ℕ) (on : Bool) (s : Station) → IsVisible s → IsVisible (on_obstruction now on s)
unfolding on_obstruction
obstruction-IsVisible now on s h = elim (Bool-cases (not on && is_door_open s.e.behaviour)) [
  | inl t ↦ rw t (record { shown = h.shown })
  | inr f ↦ rw f (record { shown = h.shown })
]

door_tick-IsVisible : (now : ℕ) (s : Station) → IsVisible s → Every IsVisible (on_door_tick now s)
unfolding on_door_tick
door_tick-IsVisible now s h =
    Every-if (timed_out now s.timer)
      (λ _. Every->>= (timeout-Shows _ _ s.e h.shown) (λ o p. just (
        broadcast-IsVisible _ (
          light-IsVisible _ (take_outcome-IsVisible now o (record s { timer = stop s.timer }) p)))))
      (λ _. just h)

state_msg-IsVisible :
    (m : ElevatorStateMsg) (s : Station) → IsVisible s → IsVisible (on_state_msg m s)
unfolding on_state_msg
state_msg-IsVisible m s h = elim (PeerId-discrete m.id s.id) [
  | yes p ↦ rw (if_pos (PeerId-discrete m.id s.id) p) h
  | no p ↦
      rw (if_neg (PeerId-discrete m.id s.id) p) (if_master-IsVisible _ (record { shown = h.shown }))
]

hall_msg-IsVisible : (m : HallRequestMsg) (s : Station) → IsVisible s → IsVisible (on_hall_msg m s)
unfolding on_hall_msg
hall_msg-IsVisible m s h = elim (PeerId-discrete m.sender_id s.id) [
  | yes p ↦ rw (if_pos (PeerId-discrete m.sender_id s.id) p) h
  | no p ↦
      rw (if_neg (PeerId-discrete m.sender_id s.id) p)
        (elim (Bool-cases (is_changed_from m.hall_requests s.hall_requests num_floors 0)) [
          | inl t ↦ rw t (if_master-IsVisible _ (record { shown = h.shown }))
          | inr f ↦ rw f (record { shown = h.shown })
        ])
]

hall_tick-IsVisible : (s : Station) → IsVisible s → IsVisible (on_hall_tick s)
unfolding on_hall_tick
hall_tick-IsVisible s h = elim (Bool-cases (is_master s)) [
  | inl t ↦ rw t (broadcast_hall-IsVisible s h)
  | inr f ↦ rw f h
]

handle-IsVisible :
    (now : ℕ) (ev : Event) (s : Station) → IsVisible s → Every IsVisible (handle now ev s)
unfolding handle on_peer_update
handle-IsVisible now (button b) s h = button-IsVisible now b.button b.floor s h
handle-IsVisible now (floor f) s h = floor-IsVisible now f s h
handle-IsVisible now (obstruction on) s h = just (obstruction-IsVisible now on s h)
handle-IsVisible now stop_button s h = just h
handle-IsVisible now door_tick s h = door_tick-IsVisible now s h
handle-IsVisible now (peer_update pu) s h =
    just (if_master-IsVisible _ (record { shown = h.shown }))
handle-IsVisible now (state_rx m) s h = just (state_msg-IsVisible m s h)
handle-IsVisible now (hall_rx m) s h = just (hall_msg-IsVisible m s h)
handle-IsVisible now ack_rx s h = just h
handle-IsVisible now state_tick s h = just (broadcast-IsVisible s h)
handle-IsVisible now hall_tick s h = just (hall_tick-IsVisible s h)

initialise-IsVisible :
    (id : PeerId) (first second arrived : ℤ) → IsVisible (initialise id first second arrived)
unfolding initialise uninitialized_elevator on_init_between_floors motor_after lamp_after
initialise-IsVisible id first second arrived = elim (Bool-cases (eq_ℤ first (negsuc 0))) [
  | inl t ↦
      rw t
        (record { shown = record { motor = refl; lamp = refl; going = λ (q : false ≡ true). cc } })
  | inr n ↦
      rw n
        (record { shown = record { motor = refl; lamp = refl; going = λ (q : false ≡ true). cc } })
]

-- In every state of a station that can be reached, after all that was told to the hardware since
-- the motor stood still with the lamp off: the motor runs in the car's direction if the car is
-- moving, which is up or down then, and stands still otherwise, and the door's lamp is on exactly
-- if the door is open.
pub Reach-IsVisible : (id : PeerId) (s : Station) → Reach id s → IsVisible s
Reach-IsVisible id s (begun first second arrived) = initialise-IsVisible id first second arrived
Reach-IsVisible id t (after {s = s} now ev r q) =
    Every-some (handle-IsVisible now ev s (Reach-IsVisible id s r)) q
