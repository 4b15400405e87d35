-- ===== src/Station/Serving.antt =====
-- Which requests the car of a station works on (main.go with the elevator and hallassigner packages).
use heis_test.Prelude.{
  ℕ, ◌≡◌, refl, ◌∙◌, List, [], ◌∷◌, Bool, true, false, none, some, Bool-cases, inl, inr, if_pos,
  if_neg, ◌&&◌, not,
}
use heis_test.Prelude.Assoc
use heis_test.Prelude.Int.{ℤ, negsuc, eq_ℤ}
use heis_test.Station.Elevio.{ButtonType, num_floors}
use heis_test.Station.Elevator.{uninitialized_elevator}
use heis_test.Station.Fsm.{Outcome, on_init_between_floors}
use heis_test.Station.HallAssigner.{PeerId, PeerId-discrete, Elevators, is_door_open}
use heis_test.Station.Partial.{Every, just, Every->>=, Every-if, any_result, Every-some}
use heis_test.Station.Unassigned.{get?-assign_other}
use heis_test.Station.Timer.{timed_out}
use heis_test.Station.World.{
  Station, reassign, reassign_if_master, take_outcome, is_master, light, set_hall,
  clear_served_hall, broadcast_hall, broadcast_state, initialise, ElevatorStateMsg, HallRequestMsg,
}
use heis_test.Station.Bare.{
  IsBare, LeavesBare, arrival-LeavesBare, timeout-LeavesBare, press-LeavesBare,
}
use heis_test.Station.Loop.{
  Event, button, floor, obstruction, stop_button, door_tick, peer_update, state_rx, hall_rx, ack_rx,
  state_tick, hall_tick, handle, on_button, on_hall_button, on_floor, serve, on_obstruction,
  on_door_tick, on_peer_update, delete_all, on_state_msg, on_hall_msg, is_changed_from,
  on_hall_tick, Reach, state_of, begun, after,
}

-- The car has no hall request, and the station does not know its own elevator as a peer's.
pub record IsAlone (s : Station) : Type 0 where
  pub bare : IsBare s.e
  pub unknown : Assoc.get? PeerId-discrete s.id s.peer_states ≡ none

reassign-IsAlone : (s : Station) → IsAlone s → IsAlone (reassign s)
unfolding reassign light
reassign-IsAlone s h =
    rw (get?-assign_other s.id s.peer_states h.unknown s.hall_requests)
      (record { bare = h.bare; unknown = h.unknown })

if_master-IsAlone : (s : Station) → IsAlone s → IsAlone (reassign_if_master s)
unfolding reassign_if_master
if_master-IsAlone s h = elim (Bool-cases (is_master s)) [
  | inl t ↦ rw t (reassign-IsAlone s h)
  | inr f ↦ rw f h
]

take_outcome-IsAlone :
    (now : ℕ) (o : Outcome) (s : Station)
    → IsAlone s
    → LeavesBare o
    → IsAlone (light (take_outcome now o s))
unfolding take_outcome light
take_outcome-IsAlone now o s h p = record { bare = p; unknown = h.unknown }

broadcast-IsAlone : (s : Station) → IsAlone s → IsAlone (broadcast_state s)
unfolding broadcast_state
broadcast-IsAlone s h = record { bare = h.bare; unknown = h.unknown }

broadcast_hall-IsAlone : (s : Station) → IsAlone s → IsAlone (broadcast_hall s)
unfolding broadcast_hall
broadcast_hall-IsAlone s h = record { bare = h.bare; unknown = h.unknown }

light-IsAlone : (s : Station) → IsAlone s → IsAlone (light s)
unfolding light
light-IsAlone s h = record { bare = h.bare; unknown = h.unknown }

hall_button-IsAlone :
    (f : ℤ) (b : ButtonType) (s : Station) → IsAlone s → Every IsAlone (on_hall_button f b s)
unfolding on_hall_button
hall_button-IsAlone f b s h = Every->>= (any_result (set_hall f b true s.hall_requests)) (λ hall _.
    just (
      broadcast_hall-IsAlone _
        (if_master-IsAlone _ (record { bare = h.bare; unknown = h.unknown }))))

button-IsAlone :
    (now : ℕ) (b : ButtonType) (f : ℤ) (s : Station)
    → IsAlone s
    → Every IsAlone (on_button now b f s)
unfolding on_button
button-IsAlone now ButtonType.cab f s h =
    Every->>= (press-LeavesBare s.e f h.bare)
      (λ o p. just (broadcast-IsAlone _ (take_outcome-IsAlone now o s h p)))
button-IsAlone now ButtonType.hall_up f s h = hall_button-IsAlone f ButtonType.hall_up s h
button-IsAlone now ButtonType.hall_down f s h = hall_button-IsAlone f ButtonType.hall_down s h

serve-IsAlone : (f : ℤ) (s : Station) → IsAlone s → Every IsAlone (serve f s)
unfolding serve
serve-IsAlone f s h = Every->>= (any_result (clear_served_hall s.e f s.hall_requests)) (λ hall _.
    just (
      broadcast_hall-IsAlone _
        (if_master-IsAlone _ (record { bare = h.bare; unknown = h.unknown }))))

floor-IsAlone : (now : ℕ) (f : ℤ) (s : Station) → IsAlone s → Every IsAlone (on_floor now f s)
unfolding on_floor take_outcome
floor-IsAlone now f s h = Every->>= (arrival-LeavesBare s.e f h.bare) (λ o p.
    let h₁ : IsAlone (take_outcome now o s) = record { bare = p; unknown = h.unknown } in
    Every->>= {P = IsAlone}
      (Every-if o.start_timer (λ _. serve-IsAlone f (take_outcome now o s) h₁) (λ _. just h₁))
      (λ t h₂. just (broadcast-IsAlone _ (light-IsAlone t h₂))))

obstruction-IsAlone :
    (now : ℕ) (on : Bool) (s : Station) → IsAlone s → IsAlone (on_obstruction now on s)
unfolding on_obstruction
obstruction-IsAlone now on s h = elim (Bool-cases (not on && is_door_open s.e.behaviour)) [
  | inl t ↦ rw t (record { bare = h.bare; unknown = h.unknown })
  | inr f ↦ rw f (record { bare = h.bare; unknown = h.unknown })
]

door_tick-IsAlone : (now : ℕ) (s : Station) → IsAlone s → Every IsAlone (on_door_tick now s)
unfolding on_door_tick
door_tick-IsAlone now s h =
    Every-if (timed_out now s.timer)
      (λ _. Every->>= (timeout-LeavesBare s.e h.bare) (λ o p. just (
        broadcast-IsAlone _
          (take_outcome-IsAlone now o _ (record { bare = h.bare; unknown = h.unknown }) p))))
      (λ _. just h)

pub get?-delete_all :
    (me : PeerId) (ids : List PeerId) (es : Elevators)
    → Assoc.get? PeerId-discrete me es ≡ none
    → Assoc.get? PeerId-discrete me (delete_all ids es) ≡ none
unfolding delete_all
get?-delete_all me [] es h = h
get?-delete_all me (lost ∷ ids) es h = get?-delete_all me ids _ (
    Assoc.get?-delete PeerId-discrete lost me es ∙ elim (PeerId-discrete lost me) [
      | yes p ↦ if_pos (PeerId-discrete lost me) p none _
      | no p ↦ if_neg (PeerId-discrete lost me) p none _ ∙ h
    ])

state_msg-IsAlone : (m : ElevatorStateMsg) (s : Station) → IsAlone s → IsAlone (on_state_msg m s)
unfolding on_state_msg
state_msg-IsAlone m s h = elim (PeerId-discrete m.id s.id) [
  | yes p ↦ rw (if_pos (PeerId-discrete m.id s.id) p) h
  | no p ↦ rw (if_neg (PeerId-discrete m.id s.id) p) (
      if_master-IsAlone _ (record {
        bare = h.bare;
        unknown =
            Assoc.get?-put PeerId-discrete m.id s.id _ s.peer_states
            ∙ if_neg (PeerId-discrete m.id s.id) p (some (state_of m)) _
            ∙ h.unknown;
      }))
]

hall_msg-IsAlone : (m : HallRequestMsg) (s : Station) → IsAlone s → IsAlone (on_hall_msg m s)
unfolding on_hall_msg
hall_msg-IsAlone m s h = elim (PeerId-discrete m.sender_id s.id) [
  | yes p ↦ rw (if_pos (PeerId-discrete m.sender_id s.id) p) h
  | no p ↦
      rw (if_neg (PeerId-discrete m.sender_id s.id) p)
        (elim (Bool-cases (is_changed_from m.hall_requests s.hall_requests num_floors 0)) [
          | inl t ↦ rw t (if_master-IsAlone _ (record { bare = h.bare; unknown = h.unknown }))
          | inr f ↦ rw f (record { bare = h.bare; unknown = h.unknown })
        ])
]

hall_tick-IsAlone : (s : Station) → IsAlone s → IsAlone (on_hall_tick s)
unfolding on_hall_tick
hall_tick-IsAlone s h = elim (Bool-cases (is_master s)) [
  | inl t ↦ rw t (broadcast_hall-IsAlone s h)
  | inr f ↦ rw f h
]

handle-IsAlone : (now : ℕ) (ev : Event) (s : Station) → IsAlone s → Every IsAlone (handle now ev s)
unfolding handle on_peer_update
handle-IsAlone now (button b) s h = button-IsAlone now b.button b.floor s h
handle-IsAlone now (floor f) s h = floor-IsAlone now f s h
handle-IsAlone now (obstruction on) s h = just (obstruction-IsAlone now on s h)
handle-IsAlone now stop_button s h = just h
handle-IsAlone now door_tick s h = door_tick-IsAlone now s h
handle-IsAlone now (peer_update pu) s h = just (
    if_master-IsAlone _
      (record { bare = h.bare; unknown = get?-delete_all s.id pu.lost s.peer_states h.unknown }))
handle-IsAlone now (state_rx m) s h = just (state_msg-IsAlone m s h)
handle-IsAlone now (hall_rx m) s h = just (hall_msg-IsAlone m s h)
handle-IsAlone now ack_rx s h = just h
handle-IsAlone now state_tick s h = just (broadcast-IsAlone s h)
handle-IsAlone now hall_tick s h = just (hall_tick-IsAlone s h)

initialise-IsAlone :
    (id : PeerId) (first second arrived : ℤ) → IsAlone (initialise id first second arrived)
unfolding initialise uninitialized_elevator on_init_between_floors Assoc.get?
initialise-IsAlone id first second arrived = elim (Bool-cases (eq_ℤ first (negsuc 0))) [
  | inl t ↦ rw t (record { bare = λ f. (refl, refl); unknown = refl })
  | inr n ↦ rw n (record { bare = λ f. (refl, refl); unknown = refl })
]

pub Reach-IsAlone : (id : PeerId) (s : Station) → Reach id s → IsAlone s
Reach-IsAlone id s (begun first second arrived) = initialise-IsAlone id first second arrived
Reach-IsAlone id t (after {s = s} now ev r q) =
    Every-some (handle-IsAlone now ev s (Reach-IsAlone id s r)) q

-- Whatever happens, the car of a station never gets a hall request to work on: in every state that
-- can be reached, both hall columns of its request matrix are off at every floor.
pub hall_never_requested :
    (id : PeerId) (s : Station)
    → Reach id s
    → (f : ℕ) → ((s.e.requests f).hall_up ≡ false) × ((s.e.requests f).hall_down ≡ false)
hall_never_requested id s r f = (Reach-IsAlone id s r).bare f
