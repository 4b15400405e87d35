-- ===== src/Gossip/Controller/Safety/Steps.antt =====
-- The car, the motor and the door agree after every event (internal/controller/controller.go).
use heis_test.Prelude.{ℕ, ◌≡◌, refl, [], true, arith, ◌∙◌}
use heis_test.Gossip.Model.Kinds.{Direction}
use heis_test.Gossip.Driver.{motor, door_lamp}
use heis_test.Gossip.Cluster.Merge.{merge_requests}
use heis_test.Gossip.Cluster.Tracker.{expire}
use heis_test.Gossip.Controller.State.{Config, new, new_with, Controller}
use heis_test.Gossip.Controller.Cases.{
  apply_remote_cases, handle_button_cases, handle_floor_cases, handle_obstruction_cases,
  handle_tick_cases,
}
use heis_test.Gossip.Controller.Events.{
  Event, incoming, button, floor, obstruction, ticked, started, handle, Reach, fresh, after,
}
use heis_test.Gossip.Controller.Safety.{
  IsCar, IsSafe, sync-IsSafe, set_request-IsCar, open_door-IsSafe, plan-IsSafe, turn_door-IsSafe,
  close_door-IsSafe, get_stuck-IsSafe, recover-IsCar, observe_peer-IsCar, pass_floor-IsCar,
  started-IsSafe,
}

-- Every event of the main loop keeps the car safe.
pub handle-IsSafe : (now : ℕ) (e : Event) (c : Controller) → IsSafe c → IsSafe (handle now e c)
unfolding handle
handle-IsSafe now (incoming snap) c h =
    let m = merge_requests c.reqs c.clock snap.requests in
    let h₁ =
      observe_peer-IsCar now snap.soft (record c { reqs = m.0; clock = m.1 })
        (record {
          door = h.car.door;
          deadline = h.car.deadline;
          halted = h.car.halted;
          driven = h.car.driven;
        }) in
    apply_remote_cases IsSafe now snap c (plan-IsSafe now _ h₁) (sync-IsSafe _ h₁)
handle-IsSafe now (button e) c h =
    handle_button_cases IsSafe now e c h (λ k. plan-IsSafe now _ (set_request-IsCar k true c h.car))
handle-IsSafe now (floor f) c h =
    let h₁ = pass_floor-IsCar now f c h.car in
    handle_floor_cases IsSafe now f c h (λ d. open_door-IsSafe now d _)
      (sync-IsSafe _ (recover-IsCar _ h₁)) (sync-IsSafe _ h₁)
handle-IsSafe now (obstruction on) c h =
    let h₁ : IsCar (record c { car = record (c.car) { obstruction = on } }) = record {
      door = h.car.door;
      deadline = h.car.deadline;
      halted = h.car.halted;
      driven = h.car.driven;
    } in
    handle_obstruction_cases IsSafe now on c (sync-IsSafe _ h₁)
      (λ due d _. turn_door-IsSafe now d _ due h₁) (λ due. close_door-IsSafe now _ due h₁)
handle-IsSafe now ticked c h =
    let h₁ : IsCar (record c { peers = (expire now c.peers).0 }) = record {
      door = h.car.door;
      deadline = h.car.deadline;
      halted = h.car.halted;
      driven = h.car.driven;
    } in
    handle_tick_cases IsSafe now c (plan-IsSafe now _ h₁) (λ m. get_stuck-IsSafe _ m h₁)
      (sync-IsSafe _ h₁) (λ due d _. turn_door-IsSafe now d _ due h₁)
      (λ due. close_door-IsSafe now _ due h₁)
handle-IsSafe now started c h = started-IsSafe c h

new-IsSafe : (cfg : Config) (boot : ℕ) → IsSafe (new cfg [] boot)
unfolding new new_with
new-IsSafe cfg boot =
    sync-IsSafe _ (record { door = refl; deadline = refl; halted = λ _. refl; driven = refl })

-- In every controller that events can lead to from a fresh one, with any configuration: the car's
-- door flag, the door's deadline and the behaviour agree on whether the door is open, the car has
-- no direction unless it moves, the motor was last told the car's direction, and the door's lamp
-- shows the door flag.
pub Reach-IsSafe : {cfg : Config} {boot : ℕ} {c : Controller} → Reach cfg boot c → IsSafe c
Reach-IsSafe {cfg} {boot} fresh = new-IsSafe cfg boot
Reach-IsSafe (after {c = c} now e r) = handle-IsSafe now e c (Reach-IsSafe r)

-- While the door lamp is lit, the motor was last told to stop.
pub motor_of_open_door :
    {cfg : Config} {boot : ℕ} {c : Controller}
    → Reach cfg boot c
    → door_lamp c.dev ≡ true
    → motor c.dev ≡ Direction.stop
motor_of_open_door {c = c} r lit =
    let h = Reach-IsSafe r in h.car.driven ∙ h.car.halted (ground (arith, h.lamp, h.car.door))
