-- ===== src/Station/Kept.antt =====
-- main.go: when a station forgets a hall request.
use heis_test.Prelude.{
  ℕ, ◌≡◌, ap, Bool, true, not, ◌&&◌, Option, none, some, Bool-cases, inl, inr, ◌≢◌, if_pos, if_neg,
}
use heis_test.Prelude.Assoc
use heis_test.Prelude.Int.{ℤ, pos}
use heis_test.Station.Elevio.{ButtonType, num_floors}
use heis_test.Station.Elevator.{Requests}
use heis_test.Station.Partial.{Every, just, Every->>=, Every-if, any_result, Every-some}
use heis_test.Station.Fsm.{Outcome, on_request_button_press, on_floor_arrival, on_door_timeout}
use heis_test.Station.HallAssigner.{PeerId-discrete, HallRow, assign, is_door_open}
use heis_test.Station.Timer.{timed_out}
use heis_test.Station.World.{
  Station, reassign, reassign_if_master, take_outcome, is_master, light, clear_served_hall,
  broadcast_hall, broadcast_state, apply_mine, ElevatorStateMsg, HallRequestMsg,
}
use heis_test.Station.Loop.{
  Event, button, floor, obstruction, stop_button, door_tick, peer_update, state_rx, hall_rx, ack_rx,
  state_tick, hall_tick, handle, on_button, on_hall_button, on_floor, serve, on_obstruction,
  on_door_tick, on_peer_update, on_state_msg, on_hall_msg, is_changed_from, on_hall_tick,
}
use heis_test.Station.Rows.{IsKept, press-IsKept, clear_served-IsKept, merge_hall-IsKept}

-- A station whose table keeps the row.
pub record Remembers (r : HallRow) (g : ℕ) (s : Station) : Type 0 where
  pub kept : IsKept r g s.hall_requests

module _ (r : HallRow) (g : ℕ) where
  light-Remembers : (s : Station) → Remembers r g s → Remembers r g (light s)
  unfolding light
  light-Remembers s h = record { kept = h.kept }

  broadcast-Remembers : (s : Station) → Remembers r g s → Remembers r g (broadcast_state s)
  unfolding broadcast_state
  broadcast-Remembers s h = record { kept = h.kept }

  broadcast_hall-Remembers : (s : Station) → Remembers r g s → Remembers r g (broadcast_hall s)
  unfolding broadcast_hall
  broadcast_hall-Remembers s h = record { kept = h.kept }

  take_outcome-Remembers :
      (now : ℕ) (o : Outcome) (s : Station) → Remembers r g s → Remembers r g (take_outcome now o s)
  unfolding take_outcome
  take_outcome-Remembers now o s h = record { kept = h.kept }

  apply_mine-Remembers :
      (o : Option Requests) (s : Station) → Remembers r g s → Remembers r g (apply_mine o s)
  apply_mine-Remembers none s h = h
  apply_mine-Remembers (some m) s h = record { kept = h.kept }

  if_master-Remembers : (s : Station) → Remembers r g s → Remembers r g (reassign_if_master s)
  unfolding reassign_if_master reassign
  if_master-Remembers s h = elim (Bool-cases (is_master s)) [
    | inl t ↦ rw t (
        light-Remembers _ (
          apply_mine-Remembers
            (Assoc.get? PeerId-discrete s.id (assign s.hall_requests s.peer_states)) s h))
    | inr f ↦ rw f h
  ]

  hall_button-Remembers :
      (f : ℤ) (b : ButtonType) (s : Station)
      → Remembers r g s
      → Every (Remembers r g) (on_hall_button f b s)
  unfolding on_hall_button
  hall_button-Remembers f b s h =
      Every->>= (press-IsKept r g f b s.hall_requests h.kept)
        (λ hall k. just (broadcast_hall-Remembers _ (if_master-Remembers _ (record { kept = k }))))

  button-Remembers :
      (now : ℕ) (b : ButtonType) (f : ℤ) (s : Station)
      → Remembers r g s
      → Every (Remembers r g) (on_button now b f s)
  unfolding on_button
  button-Remembers now ButtonType.cab f s h =
      Every->>= (any_result (on_request_button_press s.e f ButtonType.cab))
        (λ o _. just (broadcast-Remembers _ (light-Remembers _ (take_outcome-Remembers now o s h))))
  button-Remembers now ButtonType.hall_up f s h = hall_button-Remembers f ButtonType.hall_up s h
  button-Remembers now ButtonType.hall_down f s h = hall_button-Remembers f ButtonType.hall_down s h

  serve-Remembers :
      (f : ℤ) (s : Station) → f ≢ pos g → Remembers r g s → Every (Remembers r g) (serve f s)
  unfolding serve clear_served_hall
  serve-Remembers f s n h =
      Every->>= (clear_served-IsKept r g s.e.dir s.e f s.hall_requests n h.kept)
        (λ hall k. just (broadcast_hall-Remembers _ (if_master-Remembers _ (record { kept = k }))))

  floor_keeps :
      (now : ℕ) (f : ℤ) (s : Station)
      → f ≢ pos g
      → Remembers r g s
      → Every (Remembers r g) (on_floor now f s)
  unfolding on_floor
  floor_keeps now f s n h = Every->>= (any_result (on_floor_arrival s.e f)) (λ o _.
      let h₁ = take_outcome-Remembers now o s h in
      Every->>= {P = Remembers r g}
        (Every-if o.start_timer (λ _. serve-Remembers f (take_outcome now o s) n h₁) (λ _. just h₁))
        (λ t h₂. just (broadcast-Remembers _ (light-Remembers t h₂))))

  obstruction-Remembers :
      (now : ℕ) (on : Bool) (s : Station)
      → Remembers r g s
      → Remembers r g (on_obstruction now on s)
  unfolding on_obstruction
  obstruction-Remembers now on s h = elim (Bool-cases (not on && is_door_open s.e.behaviour)) [
    | inl t ↦ rw t (record { kept = h.kept })
    | inr f ↦ rw f (record { kept = h.kept })
  ]

  door_tick-Remembers :
      (now : ℕ) (s : Station) → Remembers r g s → Every (Remembers r g) (on_door_tick now s)
  unfolding on_door_tick
  door_tick-Remembers now s h =
      Every-if (timed_out now s.timer)
        (λ _. Every->>= (any_result (on_door_timeout s.e)) (λ o _. just (
          broadcast-Remembers _
            (light-Remembers _ (take_outcome-Remembers now o _ (record { kept = h.kept }))))))
        (λ _. just h)

  state_msg-Remembers :
      (m : ElevatorStateMsg) (s : Station) → Remembers r g s → Remembers r g (on_state_msg m s)
  unfolding on_state_msg
  state_msg-Remembers m s h = elim (PeerId-discrete m.id s.id) [
    | yes p ↦ rw (if_pos (PeerId-discrete m.id s.id) p) h
    | no p ↦
        rw (if_neg (PeerId-discrete m.id s.id) p) (if_master-Remembers _ (record { kept = h.kept }))
  ]

  hall_msg-Remembers :
      (m : HallRequestMsg) (s : Station) → Remembers r g s → Remembers r g (on_hall_msg m s)
  unfolding on_hall_msg
  hall_msg-Remembers m s h = elim (PeerId-discrete m.sender_id s.id) [
    | yes p ↦ rw (if_pos (PeerId-discrete m.sender_id s.id) p) h
    | no p ↦
        let k = merge_hall-IsKept r g m.hall_requests s.hall_requests h.kept in
        rw (if_neg (PeerId-discrete m.sender_id s.id) p)
          (elim (Bool-cases (is_changed_from m.hall_requests s.hall_requests num_floors 0)) [
            | inl t ↦ rw t (if_master-Remembers _ (record { kept = k }))
            | inr f ↦ rw f (record { kept = k })
          ])
  ]

  hall_tick-Remembers : (s : Station) → Remembers r g s → Remembers r g (on_hall_tick s)
  unfolding on_hall_tick
  hall_tick-Remembers s h = elim (Bool-cases (is_master s)) [
    | inl t ↦ rw t (broadcast_hall-Remembers s h)
    | inr f ↦ rw f h
  ]

  handle-Remembers :
      (now : ℕ) (ev : Event) (s : Station)
      → ev ≢ floor (pos g)
      → Remembers r g s
      → Every (Remembers r g) (handle now ev s)
  unfolding handle on_peer_update
  handle-Remembers now (button b) s n h = button-Remembers now b.button b.floor s h
  handle-Remembers now (floor f) s n h = floor_keeps now f s (λ p. n (ap floor p)) h
  handle-Remembers now (obstruction on) s n h = just (obstruction-Remembers now on s h)
  handle-Remembers now stop_button s n h = just h
  handle-Remembers now door_tick s n h = door_tick-Remembers now s h
  handle-Remembers now (peer_update pu) s n h =
      just (if_master-Remembers _ (record { kept = h.kept }))
  handle-Remembers now (state_rx m) s n h = just (state_msg-Remembers m s h)
  handle-Remembers now (hall_rx m) s n h = just (hall_msg-Remembers m s h)
  handle-Remembers now ack_rx s n h = just h
  handle-Remembers now state_tick s n h = just (broadcast-Remembers s h)
  handle-Remembers now hall_tick s n h = just (hall_tick-Remembers s h)

-- A station forgets a hall request at a floor only when its car reports that floor: after any other
-- event that gets a result, each request of the floor's row is on if it was on before.
pub hall_request_kept :
    (now : ℕ) (ev : Event) (s t : Station) (g : ℕ)
    → ev ≢ floor (pos g)
    → handle now ev s ≡ some t
    → ((s.hall_requests g).up ≡ true → (t.hall_requests g).up ≡ true)
      × ((s.hall_requests g).down ≡ true → (t.hall_requests g).down ≡ true)
hall_request_kept now ev s t g n q =
    let h : Remembers (s.hall_requests g) g t =
      Every-some
        (handle-Remembers (s.hall_requests g) g now ev s n
          (record { kept = record { up = λ p. p; down = λ p. p } }))
        q in
    (h.kept.up, h.kept.down)
