-- ===== src/Station/Idle.antt =====
-- When a car has nothing to do (elevator/requests.go): `ChooseDirection` lets it stand idle only if no
-- request is on at any floor, and opens its door only for a request at its own floor.
use heis_test.Prelude.{
  ℕ, zero, suc, ◌+◌, ◌≤◌, ◌<◌, ◌≡◌, true, false, some, arith, dec_lt, ℕ_discrete,
}
use heis_test.Prelude.Int.{ℤ, pos, negsuc, ◌+ℤ◌, ◌-ℤ◌, pos_part, int_laws}
use heis_test.Station.Elevio.{MotorDirection, num_floors}
use heis_test.Station.Elevator.{
  State, Requests, Elevator, any_button, row, ◌>>=◌, any_request, requests_above, requests_below,
  requests_here, choose_direction_of, choose_direction,
}
use heis_test.Station.Bounds.{next_floor}

-- No request is on at a floor of the building.
abbrev pub IsQuiet : Elevator → Type 0
IsQuiet e = (g : ℕ) → g < num_floors → any_button (e.requests g) ≡ false

-- The loop finds every request of the floors that it passes.
any_request-false :
    (rs : Requests) (n f g : ℕ)
    → any_request rs n (pos f) ≡ some false
    → f ≤ g
    → g < f + n
    → any_button (rs g) ≡ false
unfolding any_request row
any_request-false rs zero f g h l u = absurd (omega arith)
any_request-false rs (suc n) f g h l u =
    let rest = any_request-false rs n (f + 1) g in ground (arith, next_floor f, rest)

rounds_above : (f : ℕ) → f < 4 → f + 1 + pos_part (pos 4 -ℤ pos (f + 1)) ≡ 4
rounds_above f l = grind int_laws

all-IsQuiet :
    (e : Elevator) (f : ℤ)
    → any_request e.requests (pos_part (pos num_floors -ℤ (f +ℤ pos 1))) (f +ℤ pos 1) ≡ some false
    → (row f e.requests >>= λ r. some (any_button r)) ≡ some false
    → any_request e.requests (pos_part f) (pos 0) ≡ some false
    → IsQuiet e
unfolding row
all-IsQuiet e (negsuc f) above here below g l = absurd (ground arith)
all-IsQuiet e (pos f) above here below g l = elim (dec_lt g f) [
  | yes low ↦ any_request-false e.requests f 0 g below (omega arith) (omega arith)
  | no up ↦ elim (ℕ_discrete g f) [
    | yes same ↦ ground arith
    | no other ↦
        let high : any_request e.requests (pos_part (pos 4 -ℤ pos (f + 1))) (pos (f + 1))
            ≡ some false =
          rw⁻¹ (next_floor f) above in
        any_request-false e.requests (pos_part (pos 4 -ℤ pos (f + 1))) (f + 1) g high (omega arith)
          (omega (arith, rounds_above f (omega arith)))
  ]
]

module _ (e : Elevator) (d : MotorDirection) where
  quiet :
      requests_above e ≡ some false
      → requests_here e ≡ some false
      → requests_below e ≡ some false
      → IsQuiet e
  unfolding requests_above requests_here requests_below
  quiet above here below = all-IsQuiet e e.floor above here below

  choose_of-IsQuiet :
      (b : MotorDirection) → choose_direction_of b e ≡ some (d, State.idle) → IsQuiet e
  unfolding choose_direction_of
  choose_of-IsQuiet MotorDirection.up h = quiet (ground arith) (ground arith) (ground arith)
  choose_of-IsQuiet MotorDirection.down h = quiet (ground arith) (ground arith) (ground arith)
  choose_of-IsQuiet MotorDirection.stop h = quiet (ground arith) (ground arith) (ground arith)

  pub choose-IsQuiet : choose_direction e ≡ some (d, State.idle) → IsQuiet e
  unfolding choose_direction
  choose-IsQuiet h = choose_of-IsQuiet e.dir h

  choose_of_here :
      (b : MotorDirection)
      → choose_direction_of b e ≡ some (d, State.door_open)
      → requests_here e ≡ some true
  unfolding choose_direction_of
  choose_of_here MotorDirection.up h = ground arith
  choose_of_here MotorDirection.down h = ground arith
  choose_of_here MotorDirection.stop h = ground arith

  pub choose_here : choose_direction e ≡ some (d, State.door_open) → requests_here e ≡ some true
  unfolding choose_direction
  choose_here h = choose_of_here e.dir h
