-- ===== src/Gossip/Controller/Cases.antt =====
-- The branches of the controller's operations as rules (internal/controller/controller.go): what
-- holds of each branch's outcome holds of the operation.
use heis_test.Prelude.{
  ℕ, ◌≡◌, Bool, true, false, ◌||◌, ◌&&◌, not, some, Bool-cases, Option-cases, inl, inr, ◌-◌, ltb,
  arith,
}
use heis_test.Prelude.Int.{ℤ, pos, ltb_ℤ}
use heis_test.Gossip.Model.Kinds.{
  Direction, Button, direction, is_moving, is_door_open, is_stuck, is_idle, eq_direction,
}
use heis_test.Gossip.Model.Key.{RequestKey, hall_key, cab_key}
use heis_test.Gossip.Model.Soft.{Snapshot}
use heis_test.Gossip.Cluster.Merge.{merge_requests}
use heis_test.Gossip.Cluster.Tracker.{expire, connected}
use heis_test.Gossip.Driver.{ButtonEvent}
use heis_test.Gossip.Controller.State.{Controller, sync, set_request}
use heis_test.Gossip.Controller.Requests.{
  assignments, can_serve, next_dir, next_door_dir, should_stop,
}
use heis_test.Gossip.Controller.Motion.{
  open_door, rest, depart, plan, turn_door, close_door, door_step, is_door_due,
}
use heis_test.Gossip.Controller.Handlers.{
  observe_peer, apply_remote, valid, press, handle_button, pass_floor, recover, handle_floor,
  handle_obstruction, get_stuck, tick_door, handle_tick,
}

module _ {ℓ} (P : Controller → Type ℓ) (now : ℕ) where
  pub plan_cases :
      (c : Controller)
      → ((is_door_open c.car.behavior || is_stuck c.car.behavior) ≡ true → P (sync c))
      → (is_door_open c.car.behavior ≡ false → P (open_door now c.travel_dir c))
      → (is_door_open c.car.behavior ≡ false → P (rest c))
      → (is_door_open c.car.behavior ≡ false
          → (d : Direction) → eq_direction d Direction.stop ≡ false
          → P (depart now d c))
      → P (plan now c)
  unfolding plan
  plan_cases c busy here nowhere away =
      elim (Bool-cases (is_door_open c.car.behavior || is_stuck c.car.behavior)) [
        | inl b ↦ rw (b, plan) (busy b)
        | inr b ↦
            let shut : is_door_open c.car.behavior ≡ false = ground arith in
            elim (Bool-cases (can_serve c c.car.floor (assignments c))) [
              | inl s ↦ rw (b, s, plan) (here shut)
              | inr s ↦
                  elim (Bool-cases (eq_direction (next_dir c (assignments c)) Direction.stop)) [
                    | inl d ↦ rw (b, s, d, plan) (nowhere shut)
                    | inr d ↦ rw (b, s, d, plan) (away shut (next_dir c (assignments c)) d)
                  ]
            ]
      ]

  pub door_step_cases :
      (c : Controller)
      → P c
      → (is_door_due now c ≡ true
          → (d : Direction) → next_door_dir c (assignments c) ≡ some d
          → P (turn_door now d c))
      → (is_door_due now c ≡ true → P (close_door now c))
      → P (door_step now c).0
  unfolding door_step
  door_step_cases c idle turn close = elim (Bool-cases (is_door_due now c)) [
    | inl due ↦ elim (Option-cases (next_door_dir c (assignments c))) [
      | inl e ↦ rw (due, e, door_step) (close due)
      | inr (d, e) ↦ rw (due, e, door_step) (turn due d e)
    ]
    | inr due ↦ rw (due, door_step) idle
  ]

  pub apply_remote_cases :
      (snap : Snapshot) (c : Controller)
      → let m = merge_requests c.reqs c.clock snap.requests in
        let c₁ = (observe_peer now snap.soft (record c { reqs = m.0; clock = m.1 })).0 in
        P (plan now c₁) → P (sync c₁) → P (apply_remote now snap c)
  unfolding apply_remote
  apply_remote_cases snap c planned synced =
      let m = merge_requests c.reqs c.clock snap.requests in
      let c₁ = observe_peer now snap.soft (record c { reqs = m.0; clock = m.1 }) in
      elim (Bool-cases (m.2 || c₁.1)) [
        | inl e ↦ rw (e, apply_remote) planned
        | inr e ↦ rw (e, apply_remote) synced
      ]

  press_cases :
      (f : ℤ) (b : Button) (c : Controller)
      → P c
      → ((k : RequestKey) → P (plan now (set_request k true c)))
      → P (press now f b c)
  unfolding press
  press_cases f Button.cab c ignored pressed = pressed (cab_key c.cfg.elevator_id f)
  press_cases f Button.hall_up c ignored pressed = elim (Bool-cases (connected c.peers)) [
    | inl e ↦ rw e (pressed (hall_key f (direction Button.hall_up)))
    | inr e ↦ rw e ignored
  ]
  press_cases f Button.hall_down c ignored pressed = elim (Bool-cases (connected c.peers)) [
    | inl e ↦ rw e (pressed (hall_key f (direction Button.hall_down)))
    | inr e ↦ rw e ignored
  ]

  pub handle_button_cases :
      (e : ButtonEvent) (c : Controller)
      → P c
      → ((k : RequestKey) → P (plan now (set_request k true c)))
      → P (handle_button now e c)
  unfolding handle_button
  handle_button_cases e c ignored pressed =
      elim (Bool-cases (not c.ready || not (valid c e.button e.floor))) [
        | inl b ↦ rw (b, handle_button) ignored
        | inr b ↦ rw (b, handle_button) (press_cases e.floor e.button c ignored pressed)
      ]

  pub handle_floor_cases :
      (f : ℤ) (c : Controller)
      → P c
      → ((d : Direction) → P (open_door now d (pass_floor now f c)))
      → P (sync (recover (pass_floor now f c)))
      → P (sync (pass_floor now f c))
      → P (handle_floor now f c)
  unfolding handle_floor
  handle_floor_cases f c ignored stopped passed parked =
      elim (Bool-cases (ltb_ℤ f (pos 0) || not (ltb_ℤ f c.cfg.floors))) [
        | inl b ↦ rw (b, handle_floor) ignored
        | inr b ↦ elim (Bool-cases (is_moving c.car.behavior || is_stuck c.car.behavior)) [
          | inl m ↦
              let c₁ = pass_floor now f c in
              elim (Bool-cases (should_stop c₁ f c₁.car.direction (assignments c₁))) [
                | inl s ↦ rw (b, m, s, handle_floor) (stopped c₁.car.direction)
                | inr s ↦ rw (b, m, s, handle_floor) passed
              ]
          | inr m ↦ rw (b, m, handle_floor) parked
        ]
      ]

  pub handle_obstruction_cases :
      (on : Bool) (c : Controller)
      → let c₁ = record c { car = record (c.car) { obstruction = on } } in
        P (sync c₁)
        → (is_door_due now c₁ ≡ true
            → (d : Direction) → next_door_dir c₁ (assignments c₁) ≡ some d
            → P (turn_door now d c₁))
        → (is_door_due now c₁ ≡ true → P (close_door now c₁))
        → P (handle_obstruction now on c)
  unfolding handle_obstruction door_step
  handle_obstruction_cases true c kept turned closed = kept
  handle_obstruction_cases false c kept turned closed =
      let c₁ = record c { car = record (c.car) { obstruction = false } } in
      elim (Bool-cases (is_door_due now c₁)) [
        | inl due ↦ elim (Option-cases (next_door_dir c₁ (assignments c₁))) [
          | inl e ↦ rw (due, e, door_step) (closed due)
          | inr (d, e) ↦ rw (due, e, door_step) (turned due d e)
        ]
        | inr due ↦ rw (due, door_step) kept
      ]

  tick_door_cases :
      (c : Controller)
      → P (plan now c)
      → P (sync c)
      → (is_door_due now c ≡ true
          → (d : Direction) → next_door_dir c (assignments c) ≡ some d
          → P (turn_door now d c))
      → (is_door_due now c ≡ true → P (close_door now c))
      → P (tick_door now c)
  unfolding tick_door door_step
  tick_door_cases c planned kept turned closed = elim (Bool-cases (is_door_due now c)) [
    | inl due ↦ elim (Option-cases (next_door_dir c (assignments c))) [
      | inl e ↦ rw (due, e, tick_door, door_step) (closed due)
      | inr (d, e) ↦ rw (due, e, tick_door, door_step) (turned due d e)
    ]
    | inr due ↦ elim (Bool-cases (is_idle c.car.behavior)) [
      | inl i ↦ rw (due, i, tick_door, door_step) planned
      | inr i ↦ rw (due, i, tick_door, door_step) kept
    ]
  ]

  pub handle_tick_cases :
      (c : Controller)
      → let c₁ = record c { peers = (expire now c.peers).0 } in
        P (plan now c₁)
        → (is_moving c.car.behavior ≡ true → P (get_stuck c₁))
        → P (sync c₁)
        → (is_door_due now c₁ ≡ true
            → (d : Direction) → next_door_dir c₁ (assignments c₁) ≡ some d
            → P (turn_door now d c₁))
        → (is_door_due now c₁ ≡ true → P (close_door now c₁))
        → P (handle_tick now c)
  unfolding handle_tick
  handle_tick_cases c planned stuck kept turned closed =
      let c₁ = record c { peers = (expire now c.peers).0 } in
      elim (Bool-cases ((expire now c.peers).1 && not (is_door_open c.car.behavior))) [
        | inl e ↦ rw (e, handle_tick) planned
        | inr e ↦
            elim (Bool-cases
              (is_moving c.car.behavior && ltb c.cfg.stuck_timeout (now - c.last_move))) [
                | inl m ↦ rw (e, m, handle_tick) (stuck (ground arith))
                | inr m ↦ rw (e, m, handle_tick) (tick_door_cases c₁ planned kept turned closed)
              ]
      ]
