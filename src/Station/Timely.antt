-- ===== src/Station/Timely.antt =====
-- The door timer runs whenever the door is open, in every state of a station (main.go).
use heis_test.Prelude.{
  ℕ, ◌≡◌, refl, ◌∙◌, Bool, true, some, none, not, ◌&&◌, Bool-cases, inl, inr, if_neg, ite, ◌≢◌,
  arith,
}
use heis_test.Prelude.Assoc
use heis_test.Prelude.Int.{ℤ, negsuc, eq_ℤ}
use heis_test.Station.Elevio.{ButtonType, num_floors}
use heis_test.Station.Elevator.{uninitialized_elevator}
use heis_test.Station.Fsm.{Outcome, on_init_between_floors}
use heis_test.Station.HallAssigner.{PeerId, PeerId-discrete, is_door_open}
use heis_test.Station.Partial.{Every, just, Every->>=, Every-if, any_result, Every-some}
use heis_test.Station.Unassigned.{get?-assign_other}
use heis_test.Station.Timer.{start, stop, timed_out}
use heis_test.Station.World.{
  Station, reassign, reassign_if_master, take_outcome, is_master, light, set_hall,
  clear_served_hall, broadcast_hall, broadcast_state, initialise, ElevatorStateMsg, HallRequestMsg,
}
use heis_test.Station.Serving.{IsAlone, get?-delete_all, Reach-IsAlone}
use heis_test.Station.Waiting.{
  IsTimed, LeavesTimed, arrival-LeavesTimed, timeout-LeavesTimed, press-LeavesTimed,
}
use heis_test.Station.Loop.{
  Event, button, floor, obstruction, stop_button, door_tick, peer_update, state_rx, hall_rx, ack_rx,
  state_tick, hall_tick, handle, on_button, on_hall_button, on_floor, serve, on_obstruction,
  on_door_tick, on_peer_update, on_state_msg, on_hall_msg, is_changed_from, on_hall_tick, Reach,
  state_of, begun, after,
}

abbrev pub IsTimely : Station → Type 0
IsTimely s = IsTimed s.timer.active s.e

-- A reassignment by a station that does not know itself leaves the car alone.
if_master-IsTimely :
    (s : Station)
    → Assoc.get? PeerId-discrete s.id s.peer_states ≡ none
    → IsTimely s
    → IsTimely (reassign_if_master s)
unfolding reassign_if_master reassign light
if_master-IsTimely s unknown h = elim (Bool-cases (is_master s)) [
  | inl t ↦ rw t (rw (get?-assign_other s.id s.peer_states unknown s.hall_requests) h)
  | inr f ↦ rw f h
]

take_outcome-IsTimely :
    (now : ℕ) (o : Outcome) (s : Station)
    → LeavesTimed s.timer.active o
    → IsTimely (take_outcome now o s)
unfolding take_outcome start
take_outcome-IsTimely now o s h = elim (Bool-cases o.start_timer) [
  | inl t ↦ rw t (record { open_runs = λ _. refl; idle_quiet = h.idle_quiet })
  | inr f ↦
      rw f (record { open_runs = λ i. ground (arith, h.open_runs i); idle_quiet = h.idle_quiet })
]

hall_button-IsTimely :
    (f : ℤ) (b : ButtonType) (s : Station)
    → IsAlone s
    → IsTimely s
    → Every IsTimely (on_hall_button f b s)
unfolding on_hall_button broadcast_hall
hall_button-IsTimely f b s a h =
    Every->>= (any_result (set_hall f b true s.hall_requests))
      (λ hall _. just (if_master-IsTimely _ a.unknown h))

button-IsTimely :
    (now : ℕ) (b : ButtonType) (f : ℤ) (s : Station)
    → IsAlone s
    → IsTimely s
    → Every IsTimely (on_button now b f s)
unfolding on_button broadcast_state light
button-IsTimely now ButtonType.cab f s a h =
    Every->>= (press-LeavesTimed s.timer.active s.e f h)
      (λ o p. just (take_outcome-IsTimely now o s p))
button-IsTimely now ButtonType.hall_up f s a h = hall_button-IsTimely f ButtonType.hall_up s a h
button-IsTimely now ButtonType.hall_down f s a h = hall_button-IsTimely f ButtonType.hall_down s a h

serve-IsTimely :
    (f : ℤ) (s : Station)
    → Assoc.get? PeerId-discrete s.id s.peer_states ≡ none
    → IsTimely s
    → Every IsTimely (serve f s)
unfolding serve broadcast_hall
serve-IsTimely f s unknown h =
    Every->>= (any_result (clear_served_hall s.e f s.hall_requests))
      (λ hall _. just (if_master-IsTimely _ unknown h))

floor-IsTimely :
    (now : ℕ) (f : ℤ) (s : Station) → IsAlone s → IsTimely s → Every IsTimely (on_floor now f s)
unfolding on_floor broadcast_state light take_outcome
floor-IsTimely now f s a h = Every->>= (arrival-LeavesTimed s.timer.active s.e f h) (λ o p.
    let h₁ = take_outcome-IsTimely now o s p in
    Every->>= {P = IsTimely}
      (Every-if o.start_timer (λ _. serve-IsTimely f (take_outcome now o s) a.unknown h₁)
        (λ _. just h₁))
      (λ t h₂. just h₂))

obstruction-IsTimely :
    (now : ℕ) (on : Bool) (s : Station) → IsTimely s → IsTimely (on_obstruction now on s)
unfolding on_obstruction start
obstruction-IsTimely now on s h = elim (Bool-cases (not on && is_door_open s.e.behaviour)) [
  | inl t ↦ rw t (record { open_runs = λ _. refl; idle_quiet = h.idle_quiet })
  | inr f ↦ rw f (record { open_runs = h.open_runs; idle_quiet = h.idle_quiet })
]

door_tick-IsTimely : (now : ℕ) (s : Station) → IsTimely s → Every IsTimely (on_door_tick now s)
unfolding on_door_tick broadcast_state light stop
door_tick-IsTimely now s h =
    Every-if (timed_out now s.timer)
      (λ _.
        Every->>= (timeout-LeavesTimed s.timer.active s.e h)
          (λ o p. just (take_outcome-IsTimely now o (record s { timer = stop s.timer }) p)))
      (λ _. just h)

-- A rule for a test on IDs.
ite-IsTimely :
    (a b : PeerId) (s t : Station)
    → IsTimely s
    → (a ≢ b → IsTimely t)
    → IsTimely (ite (PeerId-discrete a b) s t)
ite-IsTimely a b s t same other = elim (PeerId-discrete a b) as (λ d. IsTimely (ite d s t)) [
  | yes p ↦ same
  | no p ↦ other p
]

state_msg-IsTimely :
    (m : ElevatorStateMsg) (s : Station) → IsAlone s → IsTimely s → IsTimely (on_state_msg m s)
unfolding on_state_msg
state_msg-IsTimely m s a h = ite-IsTimely m.id s.id s _ h (λ p.
    if_master-IsTimely _
      (Assoc.get?-put PeerId-discrete m.id s.id _ s.peer_states
        ∙ if_neg (PeerId-discrete m.id s.id) p (some (state_of m)) _
        ∙ a.unknown)
      h)

hall_msg-IsTimely :
    (m : HallRequestMsg) (s : Station) → IsAlone s → IsTimely s → IsTimely (on_hall_msg m s)
unfolding on_hall_msg
hall_msg-IsTimely m s a h = ite-IsTimely m.sender_id s.id s _ h (λ p.
    elim (Bool-cases (is_changed_from m.hall_requests s.hall_requests num_floors 0)) [
      | inl t ↦ rw t (if_master-IsTimely _ a.unknown h)
      | inr f ↦ rw f h
    ])

hall_tick-IsTimely : (s : Station) → IsTimely s → IsTimely (on_hall_tick s)
unfolding on_hall_tick broadcast_hall
hall_tick-IsTimely s h = elim (Bool-cases (is_master s)) [ inl t ↦ rw t h | inr f ↦ rw f h ]

handle-IsTimely :
    (now : ℕ) (ev : Event) (s : Station) → IsAlone s → IsTimely s → Every IsTimely (handle now ev s)
unfolding handle on_peer_update broadcast_state
handle-IsTimely now (button b) s a h = button-IsTimely now b.button b.floor s a h
handle-IsTimely now (floor f) s a h = floor-IsTimely now f s a h
handle-IsTimely now (obstruction on) s a h = just (obstruction-IsTimely now on s h)
handle-IsTimely now stop_button s a h = just h
handle-IsTimely now door_tick s a h = door_tick-IsTimely now s h
handle-IsTimely now (peer_update pu) s a h =
    just (if_master-IsTimely _ (get?-delete_all s.id pu.lost s.peer_states a.unknown) h)
handle-IsTimely now (state_rx m) s a h = just (state_msg-IsTimely m s a h)
handle-IsTimely now (hall_rx m) s a h = just (hall_msg-IsTimely m s a h)
handle-IsTimely now ack_rx s a h = just h
handle-IsTimely now state_tick s a h = just h
handle-IsTimely now hall_tick s a h = just (hall_tick-IsTimely s h)

initialise-IsTimely :
    (id : PeerId) (first second arrived : ℤ) → IsTimely (initialise id first second arrived)
unfolding initialise uninitialized_elevator on_init_between_floors
initialise-IsTimely id first second arrived = elim (Bool-cases (eq_ℤ first (negsuc 0))) [
  | inl t ↦ rw t (record { open_runs = λ i. absurd (ground arith); idle_quiet = λ _ g l. refl })
  | inr n ↦ rw n (record { open_runs = λ i. absurd (ground arith); idle_quiet = λ _ g l. refl })
]

-- In every state of a station that can be reached, the door timer is active if the door is open,
-- and no request is on at any floor of the building if the car stands idle.
pub Reach-IsTimely : (id : PeerId) (s : Station) → Reach id s → IsTimely s
Reach-IsTimely id s (begun first second arrived) = initialise-IsTimely id first second arrived
Reach-IsTimely id t (after {s = s} now ev r q) =
    Every-some (handle-IsTimely now ev s (Reach-IsAlone id s r) (Reach-IsTimely id s r)) q
