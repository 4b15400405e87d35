-- ===== src/Gossip/Controller/Sound.antt =====
-- What the tables of a controller are at every moment (internal/controller/controller.go): the
-- conditions of the theorems on the assigner and the tracker hold in every state that is reached.
pub mod Assigned
use heis_test.Prelude.{
  ℕ, ◌≡◌, ◌≢◌, refl, sym, ap, subst, ◌∙◌, List, [], ◌∷◌, map, Bool, true, false, Option, none, some,
  arith, Bool-cases, inl, inr, ◌==◌, ℕ_discrete, if_neg, if_pos, if◌then◌else◌,
}
use heis_test.Prelude.Assoc
use heis_test.Prelude.Int.{ℤ}
use heis_test.Gossip.Model.Kinds.{Direction, eq_direction, is_stuck}
use heis_test.Gossip.Model.Key.{RequestKey, RequestKey-discrete, hall_key, cab_key, is_hall}
use heis_test.Gossip.Model.Table.{RequestTable, active}
use heis_test.Gossip.Model.Table.Lookup.{IsTable, set-IsTable}
use heis_test.Gossip.Model.Soft.{SoftState, Snapshot}
use heis_test.Gossip.Cluster.Merge.{merge_requests, merge_requests-IsTable}
use heis_test.Gossip.Cluster.Tracker.{PeerTracker, new_peer_tracker, observe, expire, is_outdated}
use heis_test.Gossip.Cluster.Tracker.Laws.{
  peer, filtered, IsTracker, observe-IsTracker, expire-IsTracker, peer-expire,
}
use heis_test.Gossip.Controller.State.{
  Config, Controller, new, new_with, sync, eq_bool, set_request, clear_floor,
}
use heis_test.Gossip.Controller.Motion.{
  halt, swing, door_dir_of, open_door, rest, depart, plan, turn_door, close_door,
}
use heis_test.Gossip.Controller.Handlers.{
  observe_peer, pass_floor, recover, get_stuck, enable_buttons, seed_clock_from_observed,
}
use heis_test.Gossip.Controller.Cases.{
  plan_cases, apply_remote_cases, handle_button_cases, handle_floor_cases, handle_obstruction_cases,
  handle_tick_cases,
}
use heis_test.Gossip.Controller.Events.{
  Event, incoming, button, floor, obstruction, ticked, started, handle, Reach, fresh, after,
}

-- The table and the tracker hold no key twice, the car has the elevator's ID, and the tracker does
-- not count the elevator among its peers.
pub record IsSound (c : Controller) : Type 0 where
  pub table : IsTable c.reqs
  pub tracker : IsTracker c.peers
  pub own : c.car.id ≡ c.cfg.elevator_id
  pub strange : peer c.cfg.elevator_id c.peers ≡ none

sync-IsSound : (c : Controller) → IsSound c → IsSound (sync c)
unfolding sync
sync-IsSound c h = record { table = h.table; tracker = h.tracker; own = h.own; strange = h.strange }

set_request-IsSound :
    (k : RequestKey) (on : Bool) (c : Controller) → IsSound c → IsSound (set_request k on c)
unfolding set_request
set_request-IsSound k on c h = elim (Bool-cases (eq_bool (active c.reqs k) on)) [
  | inl t ↦ rw t h
  | inr f ↦ rw f (record {
    table = set-IsTable c.reqs k _ h.table;
    tracker = h.tracker;
    own = h.own;
    strange = h.strange;
  })
]

clear_floor-IsSound : (d : Direction) (c : Controller) → IsSound c → IsSound (clear_floor d c)
unfolding clear_floor
clear_floor-IsSound d c h =
    let h₁ = set_request-IsSound (cab_key c.cfg.elevator_id c.car.floor) false c h in
    elim (Bool-cases (eq_direction d Direction.stop)) [
      | inl t ↦ rw t h₁
      | inr f ↦ rw f (set_request-IsSound _ false _ h₁)
    ]

open_door-IsSound :
    (now : ℕ) (d : Direction) (c : Controller) → IsSound c → IsSound (open_door now d c)
unfolding open_door swing halt
open_door-IsSound now d c h = sync-IsSound _ (
    clear_floor-IsSound (door_dir_of d c) _
      (record { table = h.table; tracker = h.tracker; own = h.own; strange = h.strange }))

plan-IsSound : (now : ℕ) (c : Controller) → IsSound c → IsSound (plan now c)
unfolding rest depart
plan-IsSound now c h =
    plan_cases IsSound now c (λ _. sync-IsSound c h) (λ _. open_door-IsSound now c.travel_dir c h)
      (λ _.
        sync-IsSound _
          (record { table = h.table; tracker = h.tracker; own = h.own; strange = h.strange }))
      (λ _ d _.
        sync-IsSound _
          (record { table = h.table; tracker = h.tracker; own = h.own; strange = h.strange }))

turn_door-IsSound :
    (now : ℕ) (d : Direction) (c : Controller) → IsSound c → IsSound (turn_door now d c)
unfolding turn_door
turn_door-IsSound now d c h =
    let h₁ =
      clear_floor-IsSound d (record c { door_dir = d })
        (record { table = h.table; tracker = h.tracker; own = h.own; strange = h.strange }) in
    sync-IsSound _
      (record { table = h₁.table; tracker = h₁.tracker; own = h₁.own; strange = h₁.strange })

close_door-IsSound : (now : ℕ) (c : Controller) → IsSound c → IsSound (close_door now c)
unfolding close_door
close_door-IsSound now c h =
    plan-IsSound now _
      (record { table = h.table; tracker = h.tracker; own = h.own; strange = h.strange })

get_stuck-IsSound : (c : Controller) → IsSound c → IsSound (get_stuck c)
unfolding get_stuck
get_stuck-IsSound c h =
    sync-IsSound _
      (record { table = h.table; tracker = h.tracker; own = h.own; strange = h.strange })

recover-IsSound : (c : Controller) → IsSound c → IsSound (recover c)
unfolding recover
recover-IsSound c h = elim (Bool-cases (is_stuck c.car.behavior)) [
  | inl t ↦ rw t (record { table = h.table; tracker = h.tracker; own = h.own; strange = h.strange })
  | inr f ↦ rw f h
]

pass_floor-IsSound : (now : ℕ) (f : ℤ) (c : Controller) → IsSound c → IsSound (pass_floor now f c)
unfolding pass_floor
pass_floor-IsSound now f c h = record {
  table = h.table;
  tracker = h.tracker;
  own = h.own;
  strange = h.strange;
}

-- A state of another elevator leaves what is known of this one.
peer-observe :
    (s : SoftState) (now id : ℕ) (t : PeerTracker)
    → (s.id == id) ≡ false
    → peer id (observe s now t).0 ≡ peer id t
unfolding observe
peer-observe s now id t n =
    ground (arith, Assoc.get?-put ℕ_discrete s.id id (record { state = s; seen = now }) t.peers)

observe_peer-IsSound :
    (now : ℕ) (s : SoftState) (c : Controller) → IsSound c → IsSound (observe_peer now s c).0
unfolding observe_peer
observe_peer-IsSound now s c h = elim (Bool-cases (s.id == c.cfg.elevator_id)) [
  | inl t ↦ rw t h
  | inr f ↦ rw f (record {
    table = h.table;
    tracker = observe-IsTracker s now c.peers h.tracker;
    own = h.own;
    strange = peer-observe s now c.cfg.elevator_id c.peers f ∙ h.strange;
  })
]

expire-IsSound :
    (now : ℕ) (c : Controller) → IsSound c → IsSound (record c { peers = (expire now c.peers).0 })
expire-IsSound now c h = record {
  table = h.table;
  tracker = expire-IsTracker now c.peers h.tracker;
  own = h.own;
  strange =
      peer-expire now c.cfg.elevator_id c.peers h.tracker
      ∙ ap (filtered c.peers.timeout now) h.strange;
}

handle-IsSound : (now : ℕ) (e : Event) (c : Controller) → IsSound c → IsSound (handle now e c)
unfolding handle enable_buttons seed_clock_from_observed
handle-IsSound now (incoming snap) c h =
    let m = merge_requests c.reqs c.clock snap.requests in
    let h₁ =
      observe_peer-IsSound now snap.soft (record c { reqs = m.0; clock = m.1 })
        (record {
          table = merge_requests-IsTable c.reqs c.clock snap.requests h.table;
          tracker = h.tracker;
          own = h.own;
          strange = h.strange;
        }) in
    apply_remote_cases IsSound now snap c (plan-IsSound now _ h₁) (sync-IsSound _ h₁)
handle-IsSound now (button e) c h =
    handle_button_cases IsSound now e c h (λ k. plan-IsSound now _ (set_request-IsSound k true c h))
handle-IsSound now (floor f) c h =
    let h₁ = pass_floor-IsSound now f c h in
    handle_floor_cases IsSound now f c h (λ d. open_door-IsSound now d _ h₁)
      (sync-IsSound _ (recover-IsSound _ h₁)) (sync-IsSound _ h₁)
handle-IsSound now (obstruction on) c h =
    let h₁ : IsSound (record c { car = record (c.car) { obstruction = on } }) = record {
      table = h.table;
      tracker = h.tracker;
      own = h.own;
      strange = h.strange;
    } in
    handle_obstruction_cases IsSound now on c (sync-IsSound _ h₁)
      (λ due d _. turn_door-IsSound now d _ h₁) (λ due. close_door-IsSound now _ h₁)
handle-IsSound now ticked c h =
    let h₁ = expire-IsSound now c h in
    handle_tick_cases IsSound now c (plan-IsSound now _ h₁) (λ m. get_stuck-IsSound _ h₁)
      (sync-IsSound _ h₁) (λ due d _. turn_door-IsSound now d _ h₁)
      (λ due. close_door-IsSound now _ h₁)
handle-IsSound now started c h = record {
  table = h.table;
  tracker = h.tracker;
  own = h.own;
  strange = h.strange;
}

new-IsSound : (cfg : Config) (boot : ℕ) → IsSound (new cfg [] boot)
unfolding new new_with Assoc.get? new_peer_tracker
new-IsSound cfg boot =
    sync-IsSound _ (record { table = tt; tracker = tt; own = refl; strange = refl })

-- In every controller that events can lead to from a fresh one, with any configuration: the table
-- holds no key twice, the tracker no ID twice, the car has the elevator's ID, and the tracker does
-- not count the elevator among its peers.
pub Reach-IsSound : {cfg : Config} {boot : ℕ} {c : Controller} → Reach cfg boot c → IsSound c
Reach-IsSound {cfg} {boot} fresh = new-IsSound cfg boot
Reach-IsSound (after {c = c} now e r) = handle-IsSound now e c (Reach-IsSound r)
