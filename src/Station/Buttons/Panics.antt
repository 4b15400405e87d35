-- ===== src/Station/Buttons/Panics.antt =====
-- elevio/elevio.go: when a round of `PollButtons` panics.
use heis_test.Prelude.{
  ℕ, zero, suc, ◌+◌, ◌≤◌, ◌<◌, ◌≡◌, ◌≢◌, ◌↔◌, refl, inl, inr, List, false, Option, none, some,
  arith, Bool-cases, ◌==◌, ltb,
}
use heis_test.Station.Elevio.{num_floors, ButtonType, ButtonEvent}
use heis_test.Station.Elevator.{◌>>=◌}
use heis_test.Station.Bounds.{Runs, ran}
use heis_test.Station.Poll.{
  Pressed, poll_button, remember, report, and_then, poll_floor, poll_floors, poll_buttons,
}
use heis_test.Station.Buttons.{Reports, poll_buttons-Reports}

module _ (floors : ℕ) (now : Pressed) where
  -- Without a result, there is none of what follows.
  stuck_first :
      (o : Option (Pressed × List ButtonEvent))
      (next : Pressed → Option (Pressed × List ButtonEvent))
      → o ≡ none
      → and_then o next ≡ none
  stuck_first o next e = rw e refl

  stuck_later :
      (o : Option (Pressed × List ButtonEvent))
      (next : Pressed → Option (Pressed × List ButtonEvent))
      → ((p : Pressed) → next p ≡ none)
      → and_then o next ≡ none
  stuck_later none next e = refl
  stuck_later (some r) next e = rw (e r.0) refl

  nothing_after :
      {A B : Type 0} (o : Option A) (f : A → Option B) → ((a : A) → f a ≡ none) → (o >>= f) ≡ none
  nothing_after none f e = refl
  nothing_after (some a) f e = e a

  cab_panics :
      (f : ℕ) (prev : Pressed)
      → num_floors ≤ f
      → poll_button floors now f ButtonType.cab prev ≡ none
  unfolding poll_button remember
  cab_panics f prev l =
      let out : ltb f num_floors ≡ false = ground arith in
      rw out (nothing_after (report prev f ButtonType.cab (now f ButtonType.cab)) _ (λ es. refl))

  floor_panics : (f : ℕ) (prev : Pressed) → num_floors ≤ f → poll_floor floors now f prev ≡ none
  unfolding poll_floor
  floor_panics f prev l = stuck_later (poll_button floors now f ButtonType.hall_up prev) _ (λ p.
      stuck_later (poll_button floors now f ButtonType.hall_down p)
        (poll_button floors now f ButtonType.cab) (λ q. cab_panics f q l))

  poll_floors_panics :
      (n f : ℕ) (prev : Pressed)
      → f ≤ num_floors
      → num_floors < f + n
      → poll_floors floors now n f prev ≡ none
  unfolding poll_floors
  poll_floors_panics zero f prev l h = absurd (omega arith)
  poll_floors_panics (suc n) f prev l h = elim (Bool-cases (f == num_floors)) [
    | inl e ↦
        stuck_first (poll_floor floors now f prev) (poll_floors floors now n (suc f))
          (floor_panics f prev (ground arith))
    | inr e ↦
        stuck_later (poll_floor floors now f prev) (poll_floors floors now n (suc f))
          (λ p. poll_floors_panics n (suc f) p (ground arith) (omega arith))
  ]

  poll_buttons-found :
      (prev : Pressed) (o : Option (Pressed × List ButtonEvent))
      → Runs (Reports floors now prev) o
      → o ≢ none
  poll_buttons-found prev o (ran p) = λ e. ground arith

  -- A round of `PollButtons` panics exactly if the building has more than NumFloors floors,
  -- whatever is pressed.
  pub poll_buttons_panics :
      (prev : Pressed) → (poll_buttons floors now prev ≡ none) ↔ (num_floors < floors)
  unfolding poll_buttons
  poll_buttons_panics prev = (
    λ e. elim (Bool-cases (ltb num_floors floors)) [
      | inl t ↦ ground arith
      | inr n ↦
          absurd (poll_buttons-found prev _ (poll_buttons-Reports floors now prev (ground arith)) e)
    ],
    λ l. poll_floors_panics floors 0 prev (omega arith) (omega arith),
  )
