-- ===== src/Gossip/Controller/Handlers.antt =====
-- internal/controller/controller.go: the exported methods, one for each event of the main loop.
use heis_test.Prelude.{ℕ, ◌-◌, ◌∷◌, Bool, true, false, not, ◌&&◌, ◌||◌, ◌==◌, ltb, if◌then◌else◌}
use heis_test.Prelude.Int.{ℤ, pos, ltb_ℤ, ◌-ℤ◌}
use heis_test.Gossip.Model.Kinds.{
  Direction, Behavior, Button, direction, is_door_open, is_stuck, is_moving, is_idle,
}
use heis_test.Gossip.Model.Key.{hall_key, cab_key}
use heis_test.Gossip.Model.Clock.{seed}
use heis_test.Gossip.Model.Table.{max_counter, entries}
use heis_test.Gossip.Model.Soft.{SoftState, Snapshot}
use heis_test.Gossip.Cluster.Merge.{merge_requests}
use heis_test.Gossip.Cluster.Tracker.{observe, expire, connected}
use heis_test.Gossip.Driver.{ButtonEvent, set_motor_direction, set_floor_indicator}
use heis_test.Gossip.Controller.State.{Controller, sync, set_request}
use heis_test.Gossip.Controller.Requests.{assignments, should_stop}
use heis_test.Gossip.Controller.Motion.{open_door, plan, door_step}

-- `EnableButtons`.
unfoldable pub enable_buttons : Controller → Controller
enable_buttons c = record c { ready = true }

-- `SeedClockFromObserved`.
unfoldable pub seed_clock_from_observed : Controller → Controller
seed_clock_from_observed c = record c { clock = seed (max_counter c.reqs) c.clock }

-- `Snapshot`.
unfoldable pub snapshot : Controller → Snapshot
snapshot c = record { soft = c.car; requests = entries c.reqs }

-- `snap.Soft.ID != c.cfg.ElevatorID && c.peers.Observe(snap.Soft, now)`.
unfoldable pub observe_peer : ℕ → SoftState → Controller → Controller × Bool
observe_peer now soft c =
    let (peers', changed) = observe soft now c.peers in
    if soft.id == c.cfg.elevator_id then (c, false) else (record c { peers = peers' }, changed)

-- `ApplyRemote`.
unfoldable pub apply_remote : ℕ → Snapshot → Controller → Controller
apply_remote now snap c =
    let (reqs', clock', changed) = merge_requests c.reqs c.clock snap.requests in
    let (c₁, changed') = observe_peer now snap.soft (record c { reqs = reqs'; clock = clock' }) in
    if changed || changed' then plan now c₁ else sync c₁

-- `valid`.
unfoldable pub valid : Controller → Button → ℤ → Bool
valid c Button.hall_up floor =
    not (ltb_ℤ floor (pos 0) || not (ltb_ℤ floor c.cfg.floors))
    && ltb_ℤ floor (c.cfg.floors -ℤ pos 1)
valid c Button.hall_down floor =
    not (ltb_ℤ floor (pos 0) || not (ltb_ℤ floor c.cfg.floors)) && ltb_ℤ (pos 0) floor
valid c Button.cab floor = not (ltb_ℤ floor (pos 0) || not (ltb_ℤ floor c.cfg.floors))

-- The `switch` of `HandleButton`.
unfoldable pub press : ℕ → ℤ → Button → Controller → Controller
press now floor Button.cab c = plan now (set_request (cab_key c.cfg.elevator_id floor) true c)
press now floor Button.hall_up c =
    if connected c.peers
    then plan now (set_request (hall_key floor (direction Button.hall_up)) true c)
    else c
press now floor Button.hall_down c =
    if connected c.peers
    then plan now (set_request (hall_key floor (direction Button.hall_down)) true c)
    else c

-- `HandleButton`.
unfoldable pub handle_button : ℕ → ButtonEvent → Controller → Controller
handle_button now event c =
    if not c.ready || not (valid c event.button event.floor)
    then c
    else press now event.floor event.button c

-- `HandleFloor` behind its guard: the floor is taken over.
unfoldable pub pass_floor : ℕ → ℤ → Controller → Controller
pass_floor now floor c = record c {
  car = record (c.car) { floor = floor };
  last_move = now;
  dev = set_floor_indicator floor ∷ c.dev;
}

-- A car that was stuck and is seen at a floor counts as moving again.
unfoldable pub recover : Controller → Controller
recover c =
    if is_stuck c.car.behavior
    then record c { car = record (c.car) { behavior = Behavior.moving } }
    else c

-- `HandleFloor`.
unfoldable pub handle_floor : ℕ → ℤ → Controller → Controller
handle_floor now floor c =
    let c₁ = pass_floor now floor c in
    if ltb_ℤ floor (pos 0) || not (ltb_ℤ floor c.cfg.floors)
    then c
    else if is_moving c.car.behavior || is_stuck c.car.behavior
    then (if should_stop c₁ floor c₁.car.direction (assignments c₁)
        then open_door now c₁.car.direction c₁
        else sync (recover c₁))
    else sync c₁

-- `HandleObstruction`.
unfoldable pub handle_obstruction : ℕ → Bool → Controller → Controller
handle_obstruction now on c =
    let c₁ = record c { car = record (c.car) { obstruction = on } } in
    let (c₂, done) = door_step now c₁ in if on then sync c₁ else if done then c₂ else sync c₂

-- The part of `HandleTick` for a car that has not moved for too long.
unfoldable pub get_stuck : Controller → Controller
get_stuck c = sync (record c {
  car = record (c.car) { behavior = Behavior.stuck; direction = Direction.stop };
  dev = set_motor_direction Direction.stop ∷ c.dev;
})

-- The rest of `HandleTick`, behind the expiry of peers and the test for a stuck car.
unfoldable pub tick_door : ℕ → Controller → Controller
tick_door now c =
    let (c₁, done) = door_step now c in
    if done then c₁ else if is_idle c₁.car.behavior then plan now c₁ else sync c₁

-- `HandleTick`.
unfoldable pub handle_tick : ℕ → Controller → Controller
handle_tick now c =
    let (peers', expired) = expire now c.peers in
    let c₁ = record c { peers = peers' } in
    if expired && not (is_door_open c₁.car.behavior)
    then plan now c₁
    else if is_moving c₁.car.behavior && ltb c₁.cfg.stuck_timeout (now - c₁.last_move)
    then get_stuck c₁
    else tick_door now c₁
