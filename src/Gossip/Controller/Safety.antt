-- ===== src/Gossip/Controller/Safety.antt =====
-- The car, the motor and the door agree at every moment between two events
-- (internal/controller/controller.go).
pub mod Steps
use heis_test.Prelude.{
  ℕ, ◌≡◌, refl, sym, ap, subst, [], Bool, true, false, Option, none, some, arith, ◌∙◌,
}
use heis_test.Prelude.Int.{ℤ}
use heis_test.Gossip.Model.Kinds.{Direction, is_moving, is_door_open}
use heis_test.Gossip.Model.Key.{RequestKey}
use heis_test.Gossip.Driver.{motor, door_lamp}
use heis_test.Gossip.Cluster.Merge.{merge_requests}
use heis_test.Gossip.Cluster.Tracker.{expire}
use heis_test.Gossip.Model.Soft.{SoftState}
use heis_test.Gossip.Controller.State.{
  Config, new, new_with, Controller, sync, clear_floor, set_request,
}
use heis_test.Gossip.Controller.Frames.{
  with_table, set_request_frame, clear_floor_frame, motor-sync, door_lamp-sync,
}
use heis_test.Gossip.Controller.Motion.{
  halt, swing, open_door, rest, depart, plan, turn_door, close_door, is_door_due,
}
use heis_test.Gossip.Controller.Cases.{
  plan_cases, apply_remote_cases, handle_button_cases, handle_floor_cases, handle_obstruction_cases,
  handle_tick_cases,
}
use heis_test.Gossip.Controller.Handlers.{
  pass_floor, recover, get_stuck, observe_peer, enable_buttons, seed_clock_from_observed,
}
use heis_test.Gossip.Controller.Events.{
  Event, incoming, button, floor, obstruction, ticked, started, handle, Reach, fresh, after,
}

abbrev pub is_some : Option ℕ → Bool
is_some none = false
is_some (some n) = true

-- What holds at each point of a handler where another operation is called.
pub record IsCar (c : Controller) : Type 0 where
  pub door : c.car.door_open ≡ is_door_open c.car.behavior
  pub deadline : is_some c.door_deadline ≡ is_door_open c.car.behavior
  pub halted : is_moving c.car.behavior ≡ false → c.car.direction ≡ Direction.stop
  pub driven : motor c.dev ≡ c.car.direction

-- What holds between two events.
pub record IsSafe (c : Controller) : Type 0 where
  pub car : IsCar c
  pub lamp : door_lamp c.dev ≡ c.car.door_open

pub sync-IsSafe : (c : Controller) → IsCar c → IsSafe (sync c)
unfolding sync
sync-IsSafe c h = record {
  car = record {
    door = h.door;
    deadline = h.deadline;
    halted = h.halted;
    driven = motor-sync c ∙ h.driven;
  };
  lamp = door_lamp-sync c;
}

with_table-IsCar : (c d : Controller) → IsCar c → IsCar (with_table c d)
with_table-IsCar c d h = record {
  door = h.door;
  deadline = h.deadline;
  halted = h.halted;
  driven = h.driven;
}

pub set_request-IsCar :
    (k : RequestKey) (on : Bool) (c : Controller) → IsCar c → IsCar (set_request k on c)
set_request-IsCar k on c h =
    subst IsCar (sym (set_request_frame k on c)) (with_table-IsCar c (set_request k on c) h)

pub clear_floor-IsCar : (d : Direction) (c : Controller) → IsCar c → IsCar (clear_floor d c)
clear_floor-IsCar d c h =
    subst IsCar (sym (clear_floor_frame d c)) (with_table-IsCar c (clear_floor d c) h)

-- Opening the door makes the car safe whatever it did before.
pub open_door-IsSafe : (now : ℕ) (d : Direction) (c : Controller) → IsSafe (open_door now d c)
unfolding open_door halt swing
open_door-IsSafe now d c = sync-IsSafe _ (
    clear_floor-IsCar _ _
      (record { door = refl; deadline = refl; halted = λ _. refl; driven = refl }))

rest-IsSafe : (c : Controller) → is_door_open c.car.behavior ≡ false → IsCar c → IsSafe (rest c)
unfolding rest
rest-IsSafe c shut h = sync-IsSafe _ (record {
  door = h.door ∙ shut;
  deadline = h.deadline ∙ shut;
  halted = λ _. refl;
  driven = refl;
})

depart-IsSafe :
    (now : ℕ) (d : Direction) (c : Controller)
    → is_door_open c.car.behavior ≡ false
    → IsCar c
    → IsSafe (depart now d c)
unfolding depart
depart-IsSafe now d c shut h = sync-IsSafe _ (record {
  door = h.door ∙ shut;
  deadline = h.deadline ∙ shut;
  halted = λ (e : true ≡ false). cc;
  driven = refl;
})

pub plan-IsSafe : (now : ℕ) (c : Controller) → IsCar c → IsSafe (plan now c)
plan-IsSafe now c h =
    plan_cases IsSafe now c (λ _. sync-IsSafe c h) (λ _. open_door-IsSafe now c.travel_dir c)
      (λ shut. rest-IsSafe c shut h) (λ shut d _. depart-IsSafe now d c shut h)

turn_door-IsSafe :
    (now : ℕ) (d : Direction) (c : Controller)
    → is_door_due now c ≡ true
    → IsCar c
    → IsSafe (turn_door now d c)
unfolding turn_door
turn_door-IsSafe now d c due h =
    let c₁ = clear_floor d (record c { door_dir = d }) in
    let h₁ : IsCar c₁ =
      clear_floor-IsCar d (record c { door_dir = d })
        (record { door = h.door; deadline = h.deadline; halted = h.halted; driven = h.driven }) in
    let same : c₁.car ≡ c.car = ap (λ x. x.car) (clear_floor_frame d (record c { door_dir = d })) in
    sync-IsSafe _ (record {
      door = h₁.door;
      deadline = sym (ap (λ (x : SoftState). is_door_open x.behavior) same ∙ ground arith);
      halted = h₁.halted;
      driven = h₁.driven;
    })

close_door-IsSafe :
    (now : ℕ) (c : Controller) → is_door_due now c ≡ true → IsCar c → IsSafe (close_door now c)
unfolding close_door
close_door-IsSafe now c due h = plan-IsSafe now _ (record {
  door = refl;
  deadline = refl;
  halted = λ _. h.halted (ground arith);
  driven = h.driven;
})

get_stuck-IsSafe :
    (c : Controller) → is_moving c.car.behavior ≡ true → IsCar c → IsSafe (get_stuck c)
unfolding get_stuck
get_stuck-IsSafe c m h = sync-IsSafe _ (record {
  door = h.door ∙ ground arith;
  deadline = h.deadline ∙ ground arith;
  halted = λ _. refl;
  driven = refl;
})

recover-IsCar : (c : Controller) → IsCar c → IsCar (recover c)
unfolding recover
recover-IsCar c h = ground arith

observe_peer-IsCar :
    (now : ℕ) (s : SoftState) (c : Controller) → IsCar c → IsCar (observe_peer now s c).0
unfolding observe_peer
observe_peer-IsCar now s c h = ground arith

pass_floor-IsCar : (now : ℕ) (f : ℤ) (c : Controller) → IsCar c → IsCar (pass_floor now f c)
unfolding pass_floor
pass_floor-IsCar now f c h = record {
  door = h.door;
  deadline = h.deadline;
  halted = h.halted;
  driven = h.driven;
}

started-IsSafe : (c : Controller) → IsSafe c → IsSafe (enable_buttons (seed_clock_from_observed c))
unfolding enable_buttons seed_clock_from_observed
started-IsSafe c h = record {
  car = record {
    door = h.car.door;
    deadline = h.car.deadline;
    halted = h.car.halted;
    driven = h.car.driven;
  };
  lamp = h.lamp;
}
