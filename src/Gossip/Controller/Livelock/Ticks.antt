-- ===== src/Gossip/Controller/Livelock/Ticks.antt =====
-- Ticks do not let a trapped car go (internal/controller/controller.go).
use heis_test.Prelude.{ℕ, ◌≡◌, refl, ◌∙◌, ap, sym, subst, List, [], ◌∷◌, false, arith, none, map}
use heis_test.Gossip.Model.Kinds.{Direction, Behavior}
use heis_test.Gossip.Cluster.Tracker.{PeerTracker, expire, expire_from}
use heis_test.Gossip.Controller.State.{Controller, sync}
use heis_test.Gossip.Controller.Requests.{assignments, next_door_dir, next_door_dir_of}
use heis_test.Gossip.Controller.Motion.{halt, swing, plan, close_door}
use heis_test.Gossip.Controller.Handlers.{handle_tick}
use heis_test.Gossip.Controller.Cases.{handle_tick_cases}
use heis_test.Gossip.Controller.Events.{Event, ticked, handle, run}
use heis_test.Gossip.Driver.{set_door_open_lamp}
use heis_test.Gossip.Controller.Livelock.{IsCaught, IsTrapped, same-IsCaught, plan-caught, reopened}

-- The requests and the floor of `d` are those of `c`, and `d` is trapped.
abbrev pub StillTrapped : ℕ → ℕ → Controller → Controller → Type 0
StillTrapped m g c d = IsTrapped m g d × (d.reqs ≡ c.reqs) × (d.cfg ≡ c.cfg)

reqs-reopened :
    (now : ℕ) (c : Controller)
    → ((sync (swing now Direction.stop (halt c))).reqs ≡ c.reqs)
      × ((sync (swing now Direction.stop (halt c))).cfg ≡ c.cfg)
unfolding sync swing halt
reqs-reopened now c = (refl, refl)

close_door-trapped :
    (m g now : ℕ) (c : Controller) → IsTrapped m g c → StillTrapped m g c (close_door now c)
unfolding close_door
close_door-trapped m g now c h =
    let c₁ = record c {
      car = record (c.car) { door_open = false; behavior = Behavior.idle };
      door_dir = Direction.stop;
      door_deadline = none;
      dev = set_door_open_lamp false ∷ c.dev;
    } in
    let h₁ : IsCaught m g c₁ =
      same-IsCaught m g c c₁ h.caught h.caught.alone.peerless refl refl refl refl refl in
    subst (StillTrapped m g c) (sym (plan-caught m g c₁ h₁ now refl))
      (reopened m g c₁ h₁ now, (reqs-reopened now c₁).0, (reqs-reopened now c₁).1)

sync-trapped : (m g : ℕ) (c : Controller) → IsTrapped m g c → StillTrapped m g c (sync c)
unfolding sync
sync-trapped m g c h = (
  record {
    caught = same-IsCaught m g c _ h.caught h.caught.alone.peerless refl refl refl refl refl;
    opened = h.opened;
    parked = h.parked;
  },
  refl,
  refl,
)

expire_nobody : (now : ℕ) (t : PeerTracker) → t.peers ≡ [] → (expire now t).0.peers ≡ []
unfolding expire expire_from
expire_nobody now t e = ap (λ ps. (expire_from t.timeout now ps).0) e

plan_busy : (now : ℕ) (c : Controller) → c.car.behavior ≡ Behavior.door_open → plan now c ≡ sync c
unfolding plan
plan_busy now c h = ground arith

no_turn : (c : Controller) → c.door_dir ≡ Direction.stop → next_door_dir c (assignments c) ≡ none
unfolding next_door_dir next_door_dir_of
no_turn c h = ground arith

-- A tick at each of some times.
abbrev pub ticks : List ℕ → List (ℕ × Event)
ticks times = map (λ now. (now, ticked)) times

-- No tick, at whatever time, lets a trapped car go: the requests stay, and the car stays.
pub handle_tick-trapped :
    (m g now : ℕ) (c : Controller) → IsTrapped m g c → StillTrapped m g c (handle_tick now c)
handle_tick-trapped m g now c h =
    let c₁ = record c { peers = (expire now c.peers).0 } in
    let lone = expire_nobody now c.peers h.caught.alone.peerless in
    let h₁ : IsTrapped m g c₁ = record {
      caught = same-IsCaught m g c c₁ h.caught lone refl refl refl refl refl;
      opened = h.opened;
      parked = h.parked;
    } in
    handle_tick_cases (StillTrapped m g c) now c
      (subst (StillTrapped m g c) (sym (plan_busy now c₁ h.opened)) (sync-trapped m g c₁ h₁))
      (λ moving. absurd (ground arith)) (sync-trapped m g c₁ h₁)
      (λ _ d e. absurd (ground (arith, no_turn c₁ h.parked)))
      (λ _. close_door-trapped m g now c₁ h₁)

-- A car whose node knows no other, which came up to a floor where someone wants down, has a cab
-- call above and none at the floor, and stands there with the door open for no direction, never
-- leaves by ticks: after any number of ticks at any times it is still so, with the same requests
-- and the same configuration.
pub ticks-trapped :
    (m g : ℕ) (times : List ℕ) (c : Controller)
    → IsTrapped m g c
    → StillTrapped m g c (run (ticks times) c)
unfolding run handle
ticks-trapped m g [] c h = (h, refl, refl)
ticks-trapped m g (now ∷ times) c h =
    let (h', r, k) = handle_tick-trapped m g now c h in
    let (h'', r', k') = ticks-trapped m g times (handle_tick now c) h' in (h'', r' ∙ r, k' ∙ k)
