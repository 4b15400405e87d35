-- ===== src/Gossip/Controller/Service.antt =====
-- What the operations do to the requests (internal/controller/controller.go).
pub mod Presses
use heis_test.Prelude.{
  ℕ, ◌+◌, ◌^◌, ◌<◌, ◌≤◌, ◌≡◌, ◌≢◌, ◌∙◌, ap, sym, Bool, true, false, not, ◌||◌, arith, Bool-cases,
  inl, inr, ◌⊎◌, ite, if◌then◌else◌, Ordering,
}
use heis_test.Prelude.Compare.{compare_bytes, is_lt, is_gt}
use heis_test.Prelude.Int.{ℤ}
use heis_test.Gossip.Model.Kinds.{Direction, Button, direction, eq_direction}
use heis_test.Gossip.Model.Version.{Version, compare_version}
use heis_test.Gossip.Model.Version.Order.{eq_bytes-compare_bytes}
use heis_test.Gossip.Model.Key.{RequestKey, RequestKey-discrete, hall_key, cab_key}
use heis_test.Gossip.Model.Clock.{next}
use heis_test.Gossip.Model.Table.{cell, active}
use heis_test.Gossip.Model.Table.Lookup.{cell-set, active-set}
use heis_test.Gossip.Cluster.Merge.{is_newer}
use heis_test.Gossip.Cluster.Tracker.{connected}
use heis_test.Gossip.Controller.State.{Controller, sync, set_request, clear_floor}
use heis_test.Gossip.Controller.Frames.{set_request_frame, clear_floor_frame}
use heis_test.Gossip.Controller.Requests.{assignments, hall, pick_door_dir, pick_door_dir_of}
use heis_test.Gossip.Controller.Motion.{open_door, rest, depart, plan, halt, swing, door_dir_of}
use heis_test.Gossip.Controller.Handlers.{valid, press, handle_button}
use heis_test.Gossip.Controller.Cases.{plan_cases}

-- `set` makes the request what was asked for, and no other.
pub active-set_request :
    (k j : RequestKey) (on : Bool) (c : Controller)
    → active (set_request k on c).reqs j ≡ ite (RequestKey-discrete k j) on (active c.reqs j)
unfolding set_request
active-set_request k j on c =
    ground (arith, active-set c.reqs k j (record { active = on; version = (next c.clock).1 }))

cell-set_request :
    (k : RequestKey) (on : Bool) (c : Controller)
    → active c.reqs k ≢ on
    → cell (set_request k on c).reqs k ≡ record { active = on; version = (next c.clock).1 }
unfolding set_request
cell-set_request k on c changes =
    ground (arith, cell-set c.reqs k k (record { active = on; version = (next c.clock).1 }))

higher_is_newer :
    (v old : Version)
    → old.counter < v.counter
    → is_lt (compare_bytes v.boot_id old.boot_id) ≡ false
    → compare_version v old ≡ Ordering.gt
unfolding compare_version
higher_is_newer v old h boot = ground (arith, eq_bytes-compare_bytes v.boot_id old.boot_id)

-- A write of `set` that changes a request is newer than the cell that it replaces, if the clock is
-- not behind that cell's counter and its next value fits 64 bits, and that cell's boot is not later
-- than the clock's.
pub set_request-is_newer :
    (k : RequestKey) (on : Bool) (c : Controller)
    → active c.reqs k ≢ on
    → (cell c.reqs k).version.counter ≤ c.clock.value
    → c.clock.value + 1 < 2 ^ 64
    → is_lt (compare_bytes c.clock.boot (cell c.reqs k).version.boot_id) ≡ false
    → is_newer (cell (set_request k on c).reqs k) (cell c.reqs k) ≡ true
unfolding next
set_request-is_newer k on c changes seen fits boot =
    rw (cell-set_request k on c changes)
      (ap is_gt (higher_is_newer (next c.clock).1 (cell c.reqs k).version (omega arith) boot))

pub active-clear_floor :
    (d : Direction) (c : Controller) (j : RequestKey)
    → active (clear_floor d c).reqs j ≡ (
        if eq_direction d Direction.stop
        then ite
            (RequestKey-discrete (cab_key c.cfg.elevator_id c.car.floor) j)
            false
            (active c.reqs j)
        else ite (RequestKey-discrete (hall_key c.car.floor d) j) false (
            ite
              (RequestKey-discrete (cab_key c.cfg.elevator_id c.car.floor) j)
              false
              (active c.reqs j)))
unfolding clear_floor
active-clear_floor d c j =
    let k = cab_key c.cfg.elevator_id c.car.floor in
    let c' = set_request k false c in
    let same : c'.car ≡ c.car = ap (λ x. x.car) (set_request_frame k false c) in
    ground (
      arith,
      active-set_request k j false c,
      active-set_request (hall_key c'.car.floor d) j false c',
    )

-- The car of `open`, and its requests.
car-open_door : (now : ℕ) (a : Direction) (c : Controller) → (open_door now a c).car ≡ (halt c).car
unfolding open_door sync swing
car-open_door now a c = ap (λ x. x.car) (clear_floor_frame _ _)

active-open_door :
    (now : ℕ) (a : Direction) (c : Controller) (j : RequestKey)
    → active (open_door now a c).reqs j ≡ (
        if eq_direction (door_dir_of a c) Direction.stop
        then ite
            (RequestKey-discrete (cab_key c.cfg.elevator_id c.car.floor) j)
            false
            (active c.reqs j)
        else ite (RequestKey-discrete (hall_key c.car.floor (door_dir_of a c)) j) false (
            ite
              (RequestKey-discrete (cab_key c.cfg.elevator_id c.car.floor) j)
              false
              (active c.reqs j)))
unfolding open_door sync swing halt
active-open_door now a c j =
    active-clear_floor (door_dir_of a c) (swing now (door_dir_of a c) (halt c)) j
