-- ===== src/Gossip/Controller/Events.antt =====
-- cmd/elevator/main.go: the main loop, as the events that reach the controller one at a time.
use heis_test.Prelude.{ℕ, List, [], ◌∷◌, Bool}
use heis_test.Prelude.Int.{ℤ}
use heis_test.Gossip.Model.Soft.{Snapshot}
use heis_test.Gossip.Driver.{ButtonEvent}
use heis_test.Gossip.Controller.State.{Config, Controller, new}
use heis_test.Gossip.Controller.Handlers.{
  enable_buttons, seed_clock_from_observed, apply_remote, handle_button, handle_floor,
  handle_obstruction, handle_tick,
}

-- The cases of the `select` in `main`; `started` is what `main` does between the startup window and
-- the loop, before its first tick.
pub data Event : Type 0 where
  incoming : Snapshot → Event
  button : ButtonEvent → Event
  floor : ℤ → Event
  obstruction : Bool → Event
  ticked : Event
  started : Event

unfoldable pub handle : ℕ → Event → Controller → Controller
handle now (incoming snap) c = apply_remote now snap c
handle now (button e) c = handle_button now e c
handle now (floor f) c = handle_floor now f c
handle now (obstruction on) c = handle_obstruction now on c
handle now ticked c = handle_tick now c
handle now started c = enable_buttons (seed_clock_from_observed c)

-- Any number of events, each with its time, the first at the head.
unfoldable pub run : List (ℕ × Event) → Controller → Controller
run [] c = c
run ((now, e) ∷ es) c = run es (handle now e c)

-- What can be reached from a fresh controller.
pub data Reach (cfg : Config) (boot : ℕ) : Controller → Type 0 where
  fresh : Reach cfg boot (new cfg [] boot)
  after :
      {c : Controller} (now : ℕ) (e : Event) → Reach cfg boot c → Reach cfg boot (handle now e c)
