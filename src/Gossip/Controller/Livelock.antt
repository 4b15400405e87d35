-- ===== src/Gossip/Controller/Livelock.antt =====
-- A car that can never leave its floor (internal/controller/controller.go, `doorStep`, `plan` and
-- `open`): it came up for a cab call, someone at its floor wants to go down, and there is a cab call
-- above. `plan` finds the hall call at the floor and opens the door, `open` does not clear that call
-- as long as there is something above, and the closing door calls `plan` again.
pub mod Ticks
use heis_test.Prelude.{
  ℕ, ◌<◌, ◌≡◌, refl, ◌∙◌, ap, sym, subst, List, [], ◌∷◌, true, false, arith, some, none, map,
}
use heis_test.Prelude.Assoc
use heis_test.Prelude.Sort
use heis_test.Prelude.Int.{ℤ, pos, pos_part}
use heis_test.Gossip.Model.Kinds.{Direction, Behavior}
use heis_test.Gossip.Model.Key.{RequestKey, RequestKey-discrete, hall_key, cab_key, is_hall}
use heis_test.Gossip.Model.Table.{RequestTable, active}
use heis_test.Gossip.Model.Table.Lookup.{IsTable}
use heis_test.Gossip.Model.Soft.{SoftState}
use heis_test.Gossip.Cluster.Tracker.{
  compare_id as compare_state, PeerTracker, live_states, expire, expire_from,
}
use heis_test.Gossip.Assigner.{assign, best_of, best_from}
use heis_test.Gossip.Assigner.Agreement.{get?-assign}
use heis_test.Gossip.Controller.State.{Controller, sync, set_request, clear_floor}
use heis_test.Gossip.Controller.Requests.{
  assignments, hall, cab, can_serve, any_above, next_door_dir, next_door_dir_of, pick_door_dir,
  pick_door_dir_of,
}
use heis_test.Gossip.Controller.Loops.{any_above_iff}
use heis_test.Gossip.Controller.Motion.{halt, swing, door_dir_of, open_door, plan, close_door}
use heis_test.Gossip.Controller.Handlers.{handle_tick}
use heis_test.Gossip.Controller.Cases.{handle_tick_cases}
use heis_test.Gossip.Controller.Events.{Event, ticked, handle, run}
use heis_test.Gossip.Driver.{set_door_open_lamp}
use mathlib.Core.Path.{ap₂}

-- A node that knows no other gives every hall request to itself.
alone_assigns :
    (t : RequestTable) (s : SoftState) (k : RequestKey)
    → IsTable t
    → is_hall k.kind ≡ true
    → active t k ≡ true
    → Assoc.get? RequestKey-discrete k (assign t (s ∷ [])) ≡ some s.id
unfolding Sort.sort Sort.insert best_of best_from
alone_assigns t s k h hk act = get?-assign t s [] k h ∙ ground arith

pub record IsAlone (c : Controller) : Type 0 where
  pub table : IsTable c.reqs
  pub peerless : c.peers.peers ≡ []
  pub own : c.car.id ≡ c.cfg.elevator_id

alone_states : (s : SoftState) (t : PeerTracker) → t.peers ≡ [] → live_states s t ≡ s ∷ []
unfolding live_states Sort.sort Sort.insert
alone_states s t e = ap (λ ps. Sort.sort compare_state (s ∷ map (λ p. p.1.state) ps)) e

alone_hall :
    (c : Controller) (f : ℤ) (d : Direction)
    → IsAlone c
    → active c.reqs (hall_key f d) ≡ true
    → hall c f d (assignments c) ≡ true
unfolding hall assignments
alone_hall c f d a act = ground (
  arith,
  alone_states c.car c.peers a.peerless,
  alone_assigns c.reqs c.car (hall_key f d) a.table refl act,
)

-- The car is at floor `m`, came up, and has a cab call at floor `g` above; someone at `m` wants down.
pub record IsCaught (m g : ℕ) (c : Controller) : Type 0 where
  pub alone : IsAlone c
  pub here : c.car.floor ≡ pos m
  pub higher : m < g
  pub inside : g < pos_part c.cfg.floors
  pub above : active c.reqs (cab_key c.cfg.elevator_id (pos g)) ≡ true
  pub down : active c.reqs (hall_key (pos m) Direction.down) ≡ true
  pub no_up : active c.reqs (hall_key (pos m) Direction.up) ≡ false
  pub no_cab : active c.reqs (cab_key c.cfg.elevator_id (pos m)) ≡ false
  pub upwards : c.travel_dir ≡ Direction.up

-- The same with the door open.
pub record IsTrapped (m g : ℕ) (c : Controller) : Type 0 where
  pub caught : IsCaught m g c
  pub opened : c.car.behavior ≡ Behavior.door_open
  pub parked : c.door_dir ≡ Direction.stop

clear_floor_nothing :
    (c : Controller)
    → active c.reqs (cab_key c.cfg.elevator_id c.car.floor) ≡ false
    → clear_floor Direction.stop c ≡ c
unfolding clear_floor set_request
clear_floor_nothing c h = ground arith

-- Being caught is a matter of the table, the configuration, the floor and the travel direction.
same-IsCaught :
    (m g : ℕ) (c d : Controller)
    → IsCaught m g c
    → d.peers.peers ≡ []
    → d.reqs ≡ c.reqs
    → d.cfg ≡ c.cfg
    → d.car.floor ≡ c.car.floor
    → d.car.id ≡ c.car.id
    → d.travel_dir ≡ c.travel_dir
    → IsCaught m g d
same-IsCaught m g c d h lone r k f i t = record {
  alone = record {
    table = subst IsTable (sym r) h.alone.table;
    peerless = lone;
    own = i ∙ h.alone.own ∙ sym (ap (λ x. x.elevator_id) k);
  };
  here = f ∙ h.here;
  higher = h.higher;
  inside = subst (λ x. g < pos_part x) (sym (ap (λ x. x.floors) k)) h.inside;
  above = ap₂ (λ x id. active x (cab_key id (pos g))) r (ap (λ x. x.elevator_id) k) ∙ h.above;
  down = ap (λ x. active x (hall_key (pos m) Direction.down)) r ∙ h.down;
  no_up = ap (λ x. active x (hall_key (pos m) Direction.up)) r ∙ h.no_up;
  no_cab = ap₂ (λ x id. active x (cab_key id (pos m))) r (ap (λ x. x.elevator_id) k) ∙ h.no_cab;
  upwards = t ∙ h.upwards;
}

module _ (m g : ℕ) (c : Controller) (h : IsCaught m g c) where
  halt_above : any_above (halt c) (pos m) (assignments (halt c)) ≡ true
  unfolding halt can_serve cab
  halt_above =
      (any_above_iff (halt c) (assignments (halt c)) m).1
        (g, h.higher, h.inside, ground (arith, h.above))

  door_dir_of-up : door_dir_of Direction.up c ≡ Direction.stop
  unfolding door_dir_of pick_door_dir pick_door_dir_of halt hall
  door_dir_of-up = ground (arith, halt_above, h.here, h.no_up)

  serves_here : can_serve c c.car.floor (assignments c) ≡ true
  unfolding can_serve
  serves_here = ground (arith, alone_hall c (pos m) Direction.down h.alone h.down, h.here)

  plan-opens :
      (now : ℕ) → c.car.behavior ≡ Behavior.idle → plan now c ≡ open_door now c.travel_dir c
  unfolding plan
  plan-opens now idle = ground (arith, serves_here, idle)

  open_door-clears_nothing :
      (now : ℕ) → open_door now Direction.up c ≡ sync (swing now Direction.stop (halt c))
  unfolding open_door swing halt
  open_door-clears_nothing now =
      ap (λ d. sync (clear_floor d (swing now d (halt c)))) door_dir_of-up
      ∙ ap sync (
          clear_floor_nothing (swing now Direction.stop (halt c))
            (ap (λ f. active c.reqs (cab_key c.cfg.elevator_id f)) h.here ∙ h.no_cab))

  -- With the door shut, `plan` opens it again and clears nothing.
  plan-caught :
      (now : ℕ)
      → c.car.behavior ≡ Behavior.idle
      → plan now c ≡ sync (swing now Direction.stop (halt c))
  plan-caught now idle =
      plan-opens now idle ∙ ap (λ d. open_door now d c) h.upwards ∙ open_door-clears_nothing now

  reopened : (now : ℕ) → IsTrapped m g (sync (swing now Direction.stop (halt c)))
  unfolding sync swing halt
  reopened now = record {
    caught = same-IsCaught m g c _ h h.alone.peerless refl refl refl refl refl;
    opened = refl;
    parked = refl;
  }
