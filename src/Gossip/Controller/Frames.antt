-- ===== src/Gossip/Controller/Frames.antt =====
-- What the small operations of the controller leave alone (internal/controller/controller.go).
use heis_test.Prelude.{ℕ, zero, suc, ◌≡◌, refl, ◌∙◌, List, Bool, false, arith}
use heis_test.Prelude.Int.{pos, pos_part}
use heis_test.Gossip.Model.Kinds.{Direction}
use heis_test.Gossip.Model.Key.{RequestKey, hall_key, cab_key}
use heis_test.Gossip.Driver.{Command, motor, door_lamp}
use heis_test.Gossip.Controller.State.{
  Controller, sync_floor, sync_from, sync, set_request, clear_floor,
}

-- A controller with another clock and table.
abbrev pub with_table : Controller → Controller → Controller
with_table c d = record c { clock = d.clock; reqs = d.reqs }

-- `set` changes the clock and the table only.
pub set_request_frame :
    (k : RequestKey) (on : Bool) (c : Controller)
    → set_request k on c ≡ with_table c (set_request k on c)
unfolding set_request
set_request_frame k on c = ground arith

pub clear_floor_frame :
    (d : Direction) (c : Controller) → clear_floor d c ≡ with_table c (clear_floor d c)
unfolding clear_floor
clear_floor_frame d c =
    let k = cab_key c.cfg.elevator_id c.car.floor in
    let c' = set_request k false c in
    ground
      (arith, set_request_frame k false c, set_request_frame (hall_key c'.car.floor d) false c')

motor-sync_from :
    (c : Controller) (n f : ℕ) (dev : List Command) → motor (sync_from c n f dev) ≡ motor dev
unfolding sync_from sync_floor
motor-sync_from c zero f dev = refl
motor-sync_from c (suc n) f dev =
    motor-sync_from c n (suc f) (sync_floor c (pos f) dev) ∙ ground arith

-- The lamps do not touch the motor.
pub motor-sync : (c : Controller) → motor (sync c).dev ≡ motor c.dev
unfolding sync
motor-sync c = motor-sync_from c (pos_part c.cfg.floors) 0 _

door_lamp-sync_from :
    (c : Controller) (n f : ℕ) (dev : List Command)
    → door_lamp (sync_from c n f dev) ≡ door_lamp dev
unfolding sync_from sync_floor
door_lamp-sync_from c zero f dev = refl
door_lamp-sync_from c (suc n) f dev =
    door_lamp-sync_from c n (suc f) (sync_floor c (pos f) dev) ∙ ground arith

-- The door lamp shows the door after `sync`.
pub door_lamp-sync : (c : Controller) → door_lamp (sync c).dev ≡ c.car.door_open
unfolding sync
door_lamp-sync c = door_lamp-sync_from c (pos_part c.cfg.floors) 0 _

-- `sync` speaks to the device only.
pub sync_frame : (c : Controller) → sync c ≡ record c { dev = (sync c).dev }
unfolding sync
sync_frame c = refl
