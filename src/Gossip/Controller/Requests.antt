-- ===== src/Gossip/Controller/Requests.antt =====
-- internal/controller/controller.go: what the controller asks about the requests.
use heis_test.Prelude.{
  ℕ, zero, suc, Bool, true, false, not, ◌&&◌, ◌||◌, ◌==◌, Option, none, some, if◌then◌else◌,
}
use heis_test.Prelude.Assoc
use heis_test.Prelude.Int.{ℤ, pos, negsuc, ◌+ℤ◌, ◌-ℤ◌, ltb_ℤ, eq_ℤ, pos_part, abs}
use heis_test.Gossip.Model.Kinds.{Direction}
use heis_test.Gossip.Model.Key.{RequestKey-discrete, hall_key, cab_key}
use heis_test.Gossip.Model.Table.{active}
use heis_test.Gossip.Cluster.Tracker.{live_states}
use heis_test.Gossip.Assigner.{Assignments, assign}
use heis_test.Gossip.Controller.State.{Controller}

-- `assignments`.
unfoldable pub assignments : Controller → Assignments
assignments c = assign c.reqs (live_states c.car c.peers)

-- A missing key of a map from keys to IDs reads as 0.
abbrev pub or_zero_id : Option ℕ → ℕ
or_zero_id none = 0
or_zero_id (some id) = id

-- `cab`.
unfoldable pub cab : Controller → ℤ → Bool
cab c floor = active c.reqs (cab_key c.cfg.elevator_id floor)

-- `hall`.
unfoldable pub hall : Controller → ℤ → Direction → Assignments → Bool
hall c floor dir asg =
    let key = hall_key floor dir in
    active c.reqs key && or_zero_id (Assoc.get? RequestKey-discrete key asg) == c.cfg.elevator_id

-- `canServe`.
unfoldable pub can_serve : Controller → ℤ → Assignments → Bool
can_serve c floor asg =
    cab c floor || hall c floor Direction.up asg || hall c floor Direction.down asg

-- `floor >= 0 && floor < c.cfg.Floors`.
abbrev pub in_range : Controller → ℤ → Bool
in_range c floor = not (ltb_ℤ floor (pos 0)) && ltb_ℤ floor c.cfg.floors

-- The loop of `anyFrom`, at a floor that was stepped to.
unfoldable pub any_loop : Controller → ℤ → Assignments → ℕ → ℤ → Bool
any_loop c step asg zero floor = false
any_loop c step asg (suc fuel) floor =
    let rest = any_loop c step asg fuel (floor +ℤ step) in
    if in_range c floor then (if can_serve c floor asg then true else rest) else false

-- `anyFrom`. The loop passes each floor at most once, and then tests its condition once more.
unfoldable pub any_from : Controller → ℤ → ℤ → Assignments → Bool
any_from c floor step asg = any_loop c step asg (suc (pos_part c.cfg.floors)) (floor +ℤ step)

-- `anyAbove` and `anyBelow`.
unfoldable pub any_above : Controller → ℤ → Assignments → Bool
any_above c floor asg = any_from c floor (pos 1) asg

unfoldable pub any_below : Controller → ℤ → Assignments → Bool
any_below c floor asg = any_from c floor (negsuc 0) asg

-- `shouldStop`, behind its test of the cab call.
unfoldable pub stops_for : Controller → ℤ → Direction → Assignments → Bool
stops_for c floor Direction.up asg =
    hall c floor Direction.up asg || not (any_above c floor asg) && hall c floor Direction.down asg
stops_for c floor Direction.down asg =
    hall c floor Direction.down asg || not (any_below c floor asg) && hall c floor Direction.up asg
stops_for c floor Direction.stop asg = can_serve c floor asg

-- `shouldStop`.
unfoldable pub should_stop : Controller → ℤ → Direction → Assignments → Bool
should_stop c floor dir asg = if cab c floor then true else stops_for c floor dir asg

-- The nearest floor that can be served, as the loop of `nextDir` finds it: the rounds that are left,
-- the floor, and the best floor and distance so far.
unfoldable pub nearest_from : Controller → Assignments → ℕ → ℕ → ℤ → ℤ → ℤ
nearest_from c asg zero floor best_floor best_dist = best_floor
nearest_from c asg (suc n) floor best_floor best_dist =
    let f = pos floor in
    let dist = pos (abs (c.car.floor -ℤ f)) in
    let skip = eq_ℤ f c.car.floor || not (can_serve c f asg) in
    let closer =
      ltb_ℤ dist best_dist
      || eq_ℤ dist best_dist && (ltb_ℤ best_floor (pos 0) || ltb_ℤ f best_floor) in
    let found = not skip && closer in
    nearest_from c asg n (suc floor) (if found then f else best_floor)
      (if found then dist else best_dist)

-- The end of `nextDir`: the way to the nearest floor.
unfoldable pub nearest_dir : Controller → Assignments → Direction
nearest_dir c asg =
    let best = nearest_from c asg (pos_part c.cfg.floors) 0 (negsuc 0) (c.cfg.floors +ℤ pos 1) in
    if ltb_ℤ best (pos 0)
    then Direction.stop
    else if ltb_ℤ c.car.floor best
    then Direction.up
    else if ltb_ℤ best c.car.floor
    then Direction.down
    else Direction.stop

-- The `switch` of `nextDir`.
unfoldable pub next_dir_of : Direction → Controller → Assignments → Direction
next_dir_of Direction.up c asg =
    if any_above c c.car.floor asg
    then Direction.up
    else if any_below c c.car.floor asg
    then Direction.down
    else nearest_dir c asg
next_dir_of Direction.down c asg =
    if any_below c c.car.floor asg
    then Direction.down
    else if any_above c c.car.floor asg
    then Direction.up
    else nearest_dir c asg
next_dir_of Direction.stop c asg = nearest_dir c asg

-- `nextDir`.
unfoldable pub next_dir : Controller → Assignments → Direction
next_dir c asg = next_dir_of c.travel_dir c asg

-- `nextDoorDir`: `none` where the code returns `false`.
unfoldable pub next_door_dir_of : Direction → Controller → Assignments → Option Direction
next_door_dir_of Direction.up c asg =
    if hall c c.car.floor Direction.down asg && not (any_above c c.car.floor asg)
    then some Direction.down
    else none
next_door_dir_of Direction.down c asg =
    if hall c c.car.floor Direction.up asg && not (any_below c c.car.floor asg)
    then some Direction.up
    else none
next_door_dir_of Direction.stop c asg = none

unfoldable pub next_door_dir : Controller → Assignments → Option Direction
next_door_dir c asg = next_door_dir_of c.door_dir c asg

-- `pickDoorDir`, with `up` and `down` of the code.
unfoldable pub pick_door_dir_of : Direction → Bool → Bool → Controller → Assignments → Direction
pick_door_dir_of Direction.up up down c asg =
    if up
    then Direction.up
    else if down && not (any_above c c.car.floor asg)
    then Direction.down
    else Direction.stop
pick_door_dir_of Direction.down up down c asg =
    if down
    then Direction.down
    else if up && not (any_below c c.car.floor asg)
    then Direction.up
    else Direction.stop
pick_door_dir_of Direction.stop up down c asg =
    if up && not down
    then Direction.up
    else if down && not up
    then Direction.down
    else if up && down
    then (if any_above c c.car.floor asg
        then Direction.up
        else if any_below c c.car.floor asg
        then Direction.down
        else Direction.up)
    else Direction.stop

unfoldable pub pick_door_dir : Controller → Assignments → Direction → Direction
pick_door_dir c asg arrival =
    pick_door_dir_of arrival (hall c c.car.floor Direction.up asg)
      (hall c c.car.floor Direction.down asg) c asg
