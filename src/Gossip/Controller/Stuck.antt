-- ===== src/Gossip/Controller/Stuck.antt =====
-- A stuck car (`HandleTick`, `plan` and `HandleFloor` of internal/controller/controller.go): it
-- leaves that state by a floor event only, and the motor stays off where it then counts as moving.
use heis_test.Prelude.{ℕ, ◌≡◌, ◌∙◌, ap, sym, subst, Bool, true, false, not, ◌||◌, arith}
use heis_test.Prelude.Int.{ℤ, pos, ltb_ℤ}
use heis_test.Gossip.Model.Kinds.{Direction, Behavior, is_moving}
use heis_test.Gossip.Model.Key.{RequestKey}
use heis_test.Gossip.Model.Soft.{SoftState}
use heis_test.Gossip.Cluster.Merge.{merge_requests}
use heis_test.Gossip.Driver.{motor}
use heis_test.Gossip.Controller.State.{Controller, sync, set_request}
use heis_test.Gossip.Controller.Frames.{set_request_frame, motor-sync}
use heis_test.Gossip.Controller.Requests.{assignments, should_stop}
use heis_test.Gossip.Controller.Motion.{plan, is_door_due}
use heis_test.Gossip.Controller.Handlers.{
  observe_peer, pass_floor, recover, handle_floor, enable_buttons, seed_clock_from_observed,
}
use heis_test.Gossip.Controller.Cases.{
  apply_remote_cases, handle_button_cases, handle_obstruction_cases, handle_tick_cases,
}
use heis_test.Gossip.Controller.Events.{
  Event, incoming, button, floor, obstruction, ticked, started, handle,
}
use heis_test.Gossip.Controller.Safety.{IsSafe}

abbrev pub IsStuck : Controller → Type 0
IsStuck c = c.car.behavior ≡ Behavior.stuck

sync-IsStuck : (c : Controller) → IsStuck c → IsStuck (sync c)
unfolding sync
sync-IsStuck c h = h

plan-IsStuck : (now : ℕ) (c : Controller) → IsStuck c → IsStuck (plan now c)
unfolding plan sync
plan-IsStuck now c h = ground arith

not_due : (now : ℕ) (c : Controller) → IsStuck c → is_door_due now c ≡ false
not_due now c h = ground arith

observe_peer-IsStuck :
    (now : ℕ) (s : SoftState) (c : Controller) → IsStuck c → IsStuck (observe_peer now s c).0
unfolding observe_peer
observe_peer-IsStuck now s c h = ground arith

set_request-IsStuck :
    (k : RequestKey) (on : Bool) (c : Controller) → IsStuck c → IsStuck (set_request k on c)
set_request-IsStuck k on c h = ap (λ x. x.car.behavior) (set_request_frame k on c) ∙ h

-- The events that are no floor event.
abbrev pub is_floor : Event → Bool
is_floor (floor f) = true
is_floor _ = false

-- A stuck car stays stuck under every event that is no floor event.
pub handle-IsStuck :
    (now : ℕ) (e : Event) (c : Controller)
    → is_floor e ≡ false
    → IsStuck c
    → IsStuck (handle now e c)
unfolding handle enable_buttons seed_clock_from_observed
handle-IsStuck now (incoming snap) c ne h =
    let m = merge_requests c.reqs c.clock snap.requests in
    let h₁ = observe_peer-IsStuck now snap.soft (record c { reqs = m.0; clock = m.1 }) h in
    apply_remote_cases IsStuck now snap c (plan-IsStuck now _ h₁) (sync-IsStuck _ h₁)
handle-IsStuck now (button e) c ne h =
    handle_button_cases IsStuck now e c h (λ k. plan-IsStuck now _ (set_request-IsStuck k true c h))
handle-IsStuck now (floor f) c ne h = cc
handle-IsStuck now (obstruction on) c ne h =
    handle_obstruction_cases IsStuck now on c (sync-IsStuck _ h) (λ due d e. absurd (ground arith))
      (λ due. absurd (ground arith))
handle-IsStuck now ticked c ne h =
    handle_tick_cases IsStuck now c (plan-IsStuck now _ h) (λ m. absurd (ground arith))
      (sync-IsStuck _ h) (λ due d e. absurd (ground arith)) (λ due. absurd (ground arith))
handle-IsStuck now started c ne h = h

handle_floor-recovers :
    (now : ℕ) (f : ℤ) (c : Controller)
    → IsStuck c
    → (ltb_ℤ f (pos 0) || not (ltb_ℤ f c.cfg.floors)) ≡ false
    → (let c₁ = pass_floor now f c in should_stop c₁ f c₁.car.direction (assignments c₁)) ≡ false
    → handle_floor now f c ≡ sync (recover (pass_floor now f c))
unfolding handle_floor
handle_floor-recovers now f c h inside goes = ground arith

-- Moving, with the direction and the motor at rest.
abbrev AtRest : Controller → Type 0
AtRest d =
    (d.car.behavior ≡ Behavior.moving)
    × (d.car.direction ≡ Direction.stop)
    × (motor d.dev ≡ Direction.stop)

recovered :
    (now : ℕ) (f : ℤ) (c : Controller)
    → IsSafe c
    → IsStuck c
    → AtRest (sync (recover (pass_floor now f c)))
unfolding sync recover pass_floor
recovered now f c safe h =
    let halted = safe.car.halted (ap is_moving h) in
    (
      ground arith,
      ground (arith, halted),
      motor-sync (recover (pass_floor now f c)) ∙ ground (arith, halted, safe.car.driven),
    )

-- A safe controller with a stuck car that reports a floor of the building where it does not stop
-- counts as moving afterwards, with the direction and the motor at rest.
pub recover_without_motion :
    (now : ℕ) (f : ℤ) (c : Controller)
    → IsSafe c
    → IsStuck c
    → (ltb_ℤ f (pos 0) || not (ltb_ℤ f c.cfg.floors)) ≡ false
    → (let c₁ = pass_floor now f c in should_stop c₁ f c₁.car.direction (assignments c₁)) ≡ false
    → let d = handle_floor now f c in
      (d.car.behavior ≡ Behavior.moving)
      × (d.car.direction ≡ Direction.stop)
      × (motor d.dev ≡ Direction.stop)
recover_without_motion now f c safe h inside goes =
    subst AtRest (sym (handle_floor-recovers now f c h inside goes)) (recovered now f c safe h)
