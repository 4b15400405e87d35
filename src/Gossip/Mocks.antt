-- ===== src/Gossip/Mocks.antt =====
-- A concrete simulated car (internal/driver/mock).
use heis_test.Prelude.{refl, [], ◌∷◌, false}
use heis_test.Prelude.Int.{pos}
use heis_test.Gossip.Model.Kinds.{Direction}
use heis_test.Gossip.Mock.{MockDriver, steps}
use heis_test.Prelude.{List, [], ◌∷◌, ◌≡◌, ◌↔◌}
use heis_test.Prelude.Int.{negsuc}
use heis_test.Gossip.Model.Kinds.{Button}
use heis_test.Gossip.Mock.Console.{Word, press, ok, run_command, hall_down_word}
use heis_test.Gossip.Mock.Console.Commands.{IsCommand, run_command_iff}
use heis_test.Gossip.Mock.Travel.{IsIndoors, steps-IsIndoors}

-- At the top floor, on the way up.
abbrev climbing : MockDriver
climbing = record {
  cfg = record { floors = pos 4; start_floor = pos 0; travel_duration = 700 };
  floors = [];
  floor = pos 3;
  motor = Direction.up;
  door_open = false;
  lamps = [];
  last_move = 0;
}

steps-IsIndoors_example : IsIndoors (steps (50 ∷ 800 ∷ 1_600 ∷ []) climbing)
steps-IsIndoors_example =
    steps-IsIndoors (50 ∷ 800 ∷ 1_600 ∷ []) climbing (record { low = refl; high = refl })

abbrev down_line : List Word
down_line = (b'-' ∷ b'2' ∷ []) ∷ []

run_command_iff_example :
    (run_command hall_down_word down_line
      ≡ ok (press (record { floor = negsuc 1; button = Button.hall_down })))
    ↔ IsCommand hall_down_word down_line
        (press (record { floor = negsuc 1; button = Button.hall_down }))
run_command_iff_example =
    run_command_iff hall_down_word down_line
      (press (record { floor = negsuc 1; button = Button.hall_down }))
