-- ===== src/Exercise/Runs.antt =====
-- Concrete queues for the theorem on the exercise.
use heis_test.Prelude.{ℕ, ◌≡◌, refl, List, [], ◌∷◌}
use heis_test.Prelude.Int.{pos}
use heis_test.Exercise.Queue.{Item, insert, enqueue, insert-enqueue}

abbrev waiting : List (Item ℕ)
waiting =
    record { val = 1; priority = pos 5 }
    ∷ record { val = 2; priority = pos 3 }
    ∷ record { val = 3; priority = pos 3 }
    ∷ record { val = 4; priority = pos 1 }
    ∷ []

insert-enqueue_example :
    insert 9 (pos 3) waiting ≡ enqueue (record { val = 9; priority = pos 3 }) waiting
insert-enqueue_example =
    insert-enqueue 9 (pos 3) waiting
      ((refl, (refl, (refl, tt))), ((refl, (refl, tt)), ((refl, tt), (tt, tt))))
