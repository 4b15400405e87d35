-- ===== src/Gossip/Process.antt =====
-- cmd/elevator/main.go: one elevator, a controller and the node that speaks for it.
use heis_test.Prelude.{ℕ, List, [], ◌∷◌, Bool, true, false, if◌then◌else◌}
use heis_test.Prelude.Int.{ℤ}
use heis_test.Gossip.Driver.{ButtonEvent}
use heis_test.Gossip.Model.Soft.{Snapshot}
use heis_test.Gossip.Cluster.Node.{Node, Read, start, set_local, receive}
use heis_test.Gossip.Controller.State.{Config, Controller, new}
use heis_test.Gossip.Controller.Handlers.{
  enable_buttons, seed_clock_from_observed, snapshot, apply_remote, handle_tick,
}
use heis_test.Gossip.Controller.Events.{Event, handle}

-- `running` from the end of the startup window on.
pub record Process : Type 0 where
  pub controller : Controller
  pub node : Node
  pub running : Bool

-- `node.SetLocal(ctrl.Snapshot())`.
unfoldable pub publish : Process → Process
publish p = record p { node = set_local (snapshot p.controller) p.node }

-- `main`, up to the startup window. `SetLocal` follows `Start` at once, before the first tick of `send`,
-- and overwrites what `last` was.
unfoldable pub boot : Config → ℕ → Process
boot cfg now =
    let c = new cfg [] now in
    publish (record { controller = c; node = start (snapshot c); running = false })

-- The cases of the `select` in `main` that the driver and the ticker make.
pub data Input : Type 0 where
  button : ButtonEvent → Input
  floor : ℤ → Input
  obstruction : Bool → Input
  ticked : Input

abbrev pub event_of : Input → Event
event_of (button e) = Event.button e
event_of (floor f) = Event.floor f
event_of (obstruction on) = Event.obstruction on
event_of ticked = Event.ticked

-- The case of a snapshot from the node, in `startupSync` and in the loop of `main`. Without one in
-- the channel the case is not chosen.
unfoldable pub take_from : ℕ → Process → List Snapshot → Process
take_from now p [] = p
take_from now p (snap ∷ rest) = publish (record p {
  controller = apply_remote now snap p.controller;
  node = record (p.node) { incoming = rest };
})

unfoldable pub take_incoming : ℕ → Process → Process
take_incoming now p = take_from now p p.node.incoming

-- `main` between the startup window and the loop.
unfoldable pub begin : ℕ → Process → Process
begin now p =
    if p.running
    then p
    else publish (record p {
      controller = handle_tick now (enable_buttons (seed_clock_from_observed p.controller));
      running = true;
    })

-- The other cases of the `select`, which the loop of `main` has and `startupSync` has not.
unfoldable pub take_input : ℕ → Input → Process → Process
take_input now input p =
    if p.running
    then publish (record p { controller = handle now (event_of input) p.controller })
    else p

-- What a process does next: the goroutine of the node reads, or `main` goes on.
pub data Action : Type 0 where
  read : Read → Action
  incoming : Action
  window_over : Action
  input : Input → Action

unfoldable pub act : ℕ → Action → Process → Process
act now (read r) p = record p { node = receive r p.node }
act now incoming p = take_incoming now p
act now window_over p = begin now p
act now (input i) p = take_input now i p
