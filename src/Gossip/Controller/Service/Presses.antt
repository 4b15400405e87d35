-- ===== src/Gossip/Controller/Service/Presses.antt =====
-- What becomes of the requests of a pressed button (`HandleButton` of
-- internal/controller/controller.go).
use heis_test.Prelude.{
  ℕ, ◌≡◌, ◌∙◌, ap, sym, true, false, not, ◌||◌, arith, Bool-cases, inl, inr, ◌⊎◌,
}
use heis_test.Prelude.Int.{ℤ}
use heis_test.Gossip.Model.Kinds.{Direction, Button, direction, eq_direction}
use heis_test.Gossip.Model.Key.{RequestKey, RequestKey-discrete, hall_key, cab_key}
use heis_test.Gossip.Model.Table.{active}
use heis_test.Gossip.Cluster.Tracker.{connected}
use heis_test.Gossip.Controller.State.{Controller, sync, set_request}
use heis_test.Gossip.Controller.Requests.{assignments, hall, pick_door_dir, pick_door_dir_of}
use heis_test.Gossip.Controller.Motion.{open_door, rest, depart, plan, halt, door_dir_of}
use heis_test.Gossip.Controller.Handlers.{valid, press, handle_button}
use heis_test.Gossip.Controller.Cases.{plan_cases}
use heis_test.Gossip.Controller.Service.{active-set_request, car-open_door, active-open_door}

-- A cab request goes away under `plan` only where the door opens at its floor.
abbrev pub Kept : RequestKey → ℤ → Controller → Type 0
Kept k f d = (active d.reqs k ≡ true) ⊎ ((d.car.door_open ≡ true) × (d.car.floor ≡ f))

open_door-Kept_cab :
    (now : ℕ) (a : Direction) (c : Controller) (id : ℕ) (f : ℤ)
    → active c.reqs (cab_key id f) ≡ true
    → Kept (cab_key id f) f (open_door now a c)
unfolding halt
open_door-Kept_cab now a c id f h =
    elim (RequestKey-discrete (cab_key c.cfg.elevator_id c.car.floor) (cab_key id f)) [
      | yes p ↦ inr (
        ap (λ x. x.door_open) (car-open_door now a c),
        ap (λ x. x.floor) (car-open_door now a c) ∙ ap (λ k. k.floor) p,
      )
      | no p ↦ inl (ground (arith, active-open_door now a c (cab_key id f)))
    ]

open_door-Kept_hall :
    (now : ℕ) (a : Direction) (c : Controller) (f : ℤ) (d : Direction)
    → active c.reqs (hall_key f d) ≡ true
    → Kept (hall_key f d) f (open_door now a c)
unfolding halt
open_door-Kept_hall now a c f d h =
    elim (RequestKey-discrete (hall_key c.car.floor (door_dir_of a c)) (hall_key f d)) [
      | yes p ↦ inr (
        ap (λ x. x.door_open) (car-open_door now a c),
        ap (λ x. x.floor) (car-open_door now a c) ∙ ap (λ k. k.floor) p,
      )
      | no p ↦ inl (ground (arith, active-open_door now a c (hall_key f d)))
    ]

plan-Kept :
    (now : ℕ) (c : Controller) (k : RequestKey) (f : ℤ)
    → active c.reqs k ≡ true
    → ((a : Direction) → Kept k f (open_door now a c))
    → Kept k f (plan now c)
unfolding rest depart sync
plan-Kept now c k f h opened =
    plan_cases (Kept k f) now c (λ _. inl h) (λ _. opened c.travel_dir) (λ _. inl h)
      (λ _ d _. inl h)

handle_button-press :
    (now : ℕ) (c : Controller) (f : ℤ) (b : Button)
    → c.ready ≡ true
    → valid c b f ≡ true
    → handle_button now (record { floor = f; button = b }) c ≡ press now f b c
unfolding handle_button
handle_button-press now c f b ready v =
    let accepted : (not c.ready || not (valid c b f)) ≡ false = ground arith in rw accepted

-- A cab button of the building that is pressed while the controller is ready makes its request
-- active, or the door is open at its floor afterwards.
pub handle_button_cab :
    (now : ℕ) (c : Controller) (f : ℤ)
    → c.ready ≡ true
    → valid c Button.cab f ≡ true
    → Kept
        (cab_key c.cfg.elevator_id f)
        f
        (handle_button now (record { floor = f; button = Button.cab }) c)
unfolding press
handle_button_cab now c f ready v =
    let k = cab_key c.cfg.elevator_id f in
    let c' = set_request k true c in
    let h : active c'.reqs k ≡ true = ground (arith, active-set_request k k true c) in
    rw (handle_button-press now c f Button.cab ready v)
      (plan-Kept now c' k f h (λ a. open_door-Kept_cab now a c' c.cfg.elevator_id f h))

press-Kept_hall :
    (now : ℕ) (c : Controller) (f : ℤ) (d : Direction)
    → Kept (hall_key f d) f (plan now (set_request (hall_key f d) true c))
press-Kept_hall now c f d =
    let k = hall_key f d in
    let c' = set_request k true c in
    let h : active c'.reqs k ≡ true = ground (arith, active-set_request k k true c) in
    plan-Kept now c' k f h (λ a. open_door-Kept_hall now a c' f d h)

-- The direction of a hall button.
abbrev pub IsHallButton : Button → Direction → Type 0
IsHallButton b d =
    ((b ≡ Button.hall_up) × (d ≡ Direction.up)) ⊎ ((b ≡ Button.hall_down) × (d ≡ Direction.down))

press_hall :
    (now : ℕ) (c : Controller) (f : ℤ) (b : Button) (d : Direction)
    → IsHallButton b d
    → ((connected c.peers ≡ true) × Kept (hall_key f d) f (press now f b c))
      ⊎ ((connected c.peers ≡ false) × (press now f b c ≡ c))
unfolding press direction
press_hall now c f b d (inl (p, q)) = elim (Bool-cases (connected c.peers)) [
  | inl e ↦ inl (e, rw (p, q, e, press) (press-Kept_hall now c f Direction.up))
  | inr e ↦ inr (e, rw (p, e, press))
]
press_hall now c f b d (inr (p, q)) = elim (Bool-cases (connected c.peers)) [
  | inl e ↦ inl (e, rw (p, q, e, press) (press-Kept_hall now c f Direction.down))
  | inr e ↦ inr (e, rw (p, e, press))
]

-- A hall button that the building has, pressed while the controller is ready: if another node is
-- known, its request is active or the door is open at its floor afterwards; if none is known, the
-- controller does not change at all.
pub handle_button_hall :
    (now : ℕ) (c : Controller) (f : ℤ) (b : Button) (d : Direction)
    → IsHallButton b d
    → c.ready ≡ true
    → valid c b f ≡ true
    → ((connected c.peers ≡ true)
        × Kept (hall_key f d) f (handle_button now (record { floor = f; button = b }) c))
      ⊎ ((connected c.peers ≡ false) × (handle_button now (record { floor = f; button = b }) c ≡ c))
handle_button_hall now c f b d hb ready v =
    rw (handle_button-press now c f b ready v) (press_hall now c f b d hb)

door_dir_of-hall :
    (a : Direction) (c : Controller) (d : Direction)
    → door_dir_of a c ≡ d
    → eq_direction d Direction.stop ≡ false
    → hall (halt c) c.car.floor d (assignments (halt c)) ≡ true
unfolding door_dir_of pick_door_dir pick_door_dir_of halt
door_dir_of-hall a c d same moving = ground arith

-- `open` lets go of a hall request only if the request is assigned to this elevator.
pub open_door_assigned :
    (now : ℕ) (a : Direction) (c : Controller) (f : ℤ) (d : Direction)
    → active c.reqs (hall_key f d) ≡ true
    → active (open_door now a c).reqs (hall_key f d) ≡ false
    → (f ≡ c.car.floor) × (hall (halt c) f d (assignments (halt c)) ≡ true)
open_door_assigned now a c f d before gone =
    elim (RequestKey-discrete (hall_key c.car.floor (door_dir_of a c)) (hall_key f d)) [
      | yes p ↦
          let same_dir : door_dir_of a c ≡ d = ap (λ k. k.direction) p in
          let same_floor : c.car.floor ≡ f = ap (λ k. k.floor) p in
          let moving : eq_direction d Direction.stop ≡ false =
            ground (arith, active-open_door now a c (hall_key f d)) in
          (
            sym same_floor,
            ap (λ x. hall (halt c) x d (assignments (halt c))) (sym same_floor)
                ∙ door_dir_of-hall a c d same_dir moving,
          )
      | no p ↦ absurd (ground (arith, active-open_door now a c (hall_key f d)))
    ]
