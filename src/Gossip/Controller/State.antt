-- ===== src/Gossip/Controller/State.antt =====
-- internal/controller/controller.go: `Config`, `Controller`, `set`, `clearFloor` and `sync`.
use heis_test.Prelude.{ℕ, zero, suc, List, ◌∷◌, Bool, true, false, not, Option, none, if◌then◌else◌}
use heis_test.Prelude.Int.{ℤ, pos, ◌-ℤ◌, ltb_ℤ, eq_ℤ, pos_part}
use heis_test.Gossip.Model.Kinds.{Direction, Behavior, Button, eq_direction}
use heis_test.Gossip.Model.Key.{RequestKey, hall_key, cab_key}
use heis_test.Gossip.Model.Clock.{Clock, new_clock, next}
use heis_test.Gossip.Model.Table.{RequestTable, new_request_table, active, set}
use heis_test.Gossip.Model.Soft.{SoftState}
use heis_test.Gossip.Cluster.Tracker.{PeerTracker, new_peer_tracker}
use heis_test.Gossip.Driver.{Command, set_button_lamp, set_floor_indicator, set_door_open_lamp}

pub record Config : Type 0 where
  pub elevator_id : ℕ
  pub boot_id : List ℕ
  pub floors : ℤ
  pub start_floor : ℤ
  pub door_open_duration : ℕ
  pub peer_timeout : ℕ
  pub stuck_timeout : ℕ

-- `none` is the zero time of the door deadline.
pub record Controller : Type 0 where
  pub cfg : Config
  pub dev : List Command
  pub clock : Clock
  pub reqs : RequestTable
  pub peers : PeerTracker
  pub car : SoftState
  pub ready : Bool
  pub door_deadline : Option ℕ
  pub last_move : ℕ
  pub travel_dir : Direction
  pub door_dir : Direction

abbrev pub default_floors : ℤ
default_floors = pos 4

-- `if x == 0 { x = d }`.
abbrev pub or_default : ℕ → ℕ → ℕ
or_default d zero = d
or_default d (suc n) = suc n

-- The defaults that `New` fills in.
unfoldable pub with_defaults : Config → Config
with_defaults cfg = record cfg {
  floors = if eq_ℤ cfg.floors (pos 0) then default_floors else cfg.floors;
  door_open_duration = or_default 3_000_000_000 cfg.door_open_duration;
  peer_timeout = or_default 1_000_000_000 cfg.peer_timeout;
  stuck_timeout = or_default 5_000_000_000 cfg.stuck_timeout;
}

-- The lamps of one floor, as `sync` sets them.
unfoldable pub sync_floor : Controller → ℤ → List Command → List Command
sync_floor c floor dev =
    let dev₁ =
      if ltb_ℤ floor (c.cfg.floors -ℤ pos 1)
      then set_button_lamp Button.hall_up floor (active c.reqs (hall_key floor Direction.up)) ∷ dev
      else dev in
    let dev₂ =
      if ltb_ℤ (pos 0) floor
      then set_button_lamp Button.hall_down floor (active c.reqs (hall_key floor Direction.down))
        ∷ dev₁
      else dev₁ in
    set_button_lamp Button.cab floor (active c.reqs (cab_key c.cfg.elevator_id floor)) ∷ dev₂

-- The loop of `sync` over the floors, with the rounds that are left.
unfoldable pub sync_from : Controller → ℕ → ℕ → List Command → List Command
sync_from c zero floor dev = dev
sync_from c (suc n) floor dev = sync_from c n (suc floor) (sync_floor c (pos floor) dev)

-- `sync`.
unfoldable pub sync : Controller → Controller
sync c = record c {
  dev =
      sync_from c (pos_part c.cfg.floors) 0
        (set_door_open_lamp c.car.door_open ∷ set_floor_indicator c.car.floor ∷ c.dev);
}

-- The controller that `New` builds, before its `sync`; then `New`.
unfoldable pub new_with : List Command → ℕ → Config → Controller
new_with dev now cfg' = record {
  cfg = cfg';
  dev = dev;
  clock = new_clock cfg'.elevator_id cfg'.boot_id;
  reqs = new_request_table;
  peers = new_peer_tracker cfg'.peer_timeout;
  car = record {
    id = cfg'.elevator_id;
    boot_id = cfg'.boot_id;
    floor = cfg'.start_floor;
    direction = Direction.stop;
    behavior = Behavior.idle;
    door_open = false;
    obstruction = false;
  };
  ready = false;
  door_deadline = none;
  last_move = now;
  travel_dir = Direction.stop;
  door_dir = Direction.stop;
}

unfoldable pub new : Config → List Command → ℕ → Controller
new cfg dev now = sync (new_with dev now (with_defaults cfg))

-- `==` on Booleans.
abbrev pub eq_bool : Bool → Bool → Bool
eq_bool true b = b
eq_bool false b = not b

-- `set`.
unfoldable pub set_request : RequestKey → Bool → Controller → Controller
set_request key on c =
    let (clock', version) = next c.clock in
    if eq_bool (active c.reqs key) on then c else record c {
      clock = clock';
      reqs = set c.reqs key (record { active = on; version = version });
    }

-- `clearFloor`.
unfoldable pub clear_floor : Direction → Controller → Controller
clear_floor dir c =
    let c' = set_request (cab_key c.cfg.elevator_id c.car.floor) false c in
    if eq_direction dir Direction.stop then c' else set_request (hall_key c'.car.floor dir) false c'
