-- ===== src/Station/Poll.antt =====
-- elevio/elevio.go: `PollButtons`. `prev` is an array of NumFloors rows, which panics outside of these;
-- `floors` is `_numFloors`, which the flag `-floors` of main.go sets.
pub mod Rounds
pub mod Button
use heis_test.Prelude.{
  ℕ, zero, suc, ◌+◌, List, [], ◌∷◌, ◌++◌, Bool, true, false, not, ◌&&◌, ◌==◌, Option, none, some,
  if◌then◌else◌, ltb,
}
use heis_test.Prelude.Int.{pos}
use heis_test.Station.Elevio.{num_floors, ButtonType, ButtonEvent}
use heis_test.Station.Elevator.{◌>>=◌}

-- Whether each button was pressed at the last round; and the answers of `GetButton` in a round.
abbrev pub Pressed : Type 0
Pressed = ℕ → ButtonType → Bool

-- `(b == BT_HallUp && f == _numFloors-1) || (b == BT_HallDown && f == 0)`.
abbrev pub is_missing : ℕ → ℕ → ButtonType → Bool
is_missing floors f ButtonType.hall_up = f + 1 == floors
is_missing floors f ButtonType.hall_down = f == 0
is_missing floors f ButtonType.cab = false

abbrev pub event : ℕ → ButtonType → ButtonEvent
event f b = record { floor = pos f; button = b }

abbrev pub eq_button : ButtonType → ButtonType → Bool
eq_button ButtonType.hall_up ButtonType.hall_up = true
eq_button ButtonType.hall_down ButtonType.hall_down = true
eq_button ButtonType.cab ButtonType.cab = true
eq_button _ _ = false

-- `prev[f][b]`.
unfoldable pub seen : Pressed → ℕ → ButtonType → Option Bool
seen prev f b = if ltb f num_floors then some (prev f b) else none

-- `prev[f][b] = v`.
abbrev pub put : Pressed → ℕ → ButtonType → Bool → Pressed
put prev f b v g c = if f == g && eq_button b c then v else prev g c

unfoldable pub remember : Pressed → ℕ → ButtonType → Bool → Option Pressed
remember prev f b v = if ltb f num_floors then some (put prev f b v) else none

-- `if v && !prev[f][b]`, with the event that is sent. `prev` is read only if the button is pressed.
unfoldable pub report : Pressed → ℕ → ButtonType → Bool → Option (List ButtonEvent)
report prev f b true = seen prev f b >>= λ w. some (if w then [] else event f b ∷ [])
report prev f b false = some []

-- The body of the inner loop: `prev` afterwards, and what is sent.
unfoldable pub poll_button :
    ℕ → Pressed → ℕ → ButtonType → Pressed → Option (Pressed × List ButtonEvent)
poll_button floors now f b prev =
    if is_missing floors f b
    then some (prev, [])
    else (report prev f b (now f b) >>= λ sent.
        remember prev f b (now f b) >>= λ prev'. some (prev', sent))

-- One poll after another.
abbrev pub and_then :
    Option (Pressed × List ButtonEvent)
    → (Pressed → Option (Pressed × List ButtonEvent))
    → Option (Pressed × List ButtonEvent)
and_then o next = o >>= λ r. next r.0 >>= λ t. some (t.0, r.1 ++ t.1)

-- The inner loop.
unfoldable pub poll_floor : ℕ → Pressed → ℕ → Pressed → Option (Pressed × List ButtonEvent)
poll_floor floors now f prev = and_then (poll_button floors now f ButtonType.hall_up prev) (λ p.
    and_then (poll_button floors now f ButtonType.hall_down p)
      (poll_button floors now f ButtonType.cab))

-- The outer loop, from floor `f` with the floors that are left.
unfoldable pub poll_floors : ℕ → Pressed → ℕ → ℕ → Pressed → Option (Pressed × List ButtonEvent)
poll_floors floors now zero f prev = some (prev, [])
poll_floors floors now (suc n) f prev =
    and_then (poll_floor floors now f prev) (poll_floors floors now n (suc f))

-- One round.
unfoldable pub poll_buttons : ℕ → Pressed → Pressed → Option (Pressed × List ButtonEvent)
poll_buttons floors now prev = poll_floors floors now floors 0 prev
