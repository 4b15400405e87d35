-- ===== src/Station/Cost.antt =====
-- The loop of `cost` (hallassigner/hallassigner.go) ends after at most 51 rounds.
use heis_test.Prelude.{
  ℕ, zero, suc, ◌+◌, ◌*◌, ◌≤◌, ◌<◌, ◌≡◌, refl, some, arith, Bool-cases, inl, inr, ◌&&◌, ◌||◌, ltb,
}
use heis_test.Prelude.Int.{ℤ, eq_ℤ}
use heis_test.Station.Elevio.{ButtonType, MotorDirection}
use heis_test.Station.HallAssigner.{
  ElevatorState, advance, cost_from, cost, cost_fuel, eq_direction, is_stop, btn_to_dir,
  is_door_open,
}

module _ (target : ℤ) (b : ButtonType) where
  cost_from-ends :
      (fuel : ℕ) (d : ℤ) (dir : MotorDirection) (duration : ℕ)
      → duration ≤ 100
      → 100 < fuel * 2 + duration
      → (c : ℕ) × (cost_from fuel target b d dir duration ≡ some c) × (duration ≤ c) × (c ≤ 102)
  unfolding cost_from
  cost_from-ends zero d dir duration low enough = ground arith
  cost_from-ends (suc fuel) d dir duration low enough =
      elim (Bool-cases (eq_ℤ d target && (eq_direction dir (btn_to_dir b) || is_stop dir))) [
        | inl t ↦ (duration, rw t refl, ground arith, ground arith)
        | inr n ↦ elim (Bool-cases (ltb 100 (duration + 2))) [
          | inl t ↦ (duration + 2, rw n (rw t refl), ground arith, ground arith)
          | inr f ↦
              let next = advance target d dir in
              let (c, q, l, h) =
                cost_from-ends fuel next.0 next.1 (duration + 2) (ground arith) (ground arith) in
              (c, rw n (rw f q), ground arith, h)
        ]
      ]

-- For every elevator, also one at a floor outside the building, every floor and every button, the
-- loop of `cost` ends within the 51 rounds that it is given, with a cost of at most 102.
pub cost-ends :
    (e : ElevatorState) (target : ℤ) (b : ButtonType)
    → (c : ℕ) × (cost e target b ≡ some c) × (c ≤ 102)
unfolding cost
cost-ends e target b = elim (Bool-cases (is_door_open e.behaviour)) [
  | inl t ↦
      let (c, q, l, h) =
        cost_from-ends target b cost_fuel e.floor e.direction 1 (ground arith) (ground arith) in
      (c, rw t q, h)
  | inr f ↦
      let (c, q, l, h) =
        cost_from-ends target b cost_fuel e.floor e.direction 0 (ground arith) (ground arith) in
      (c, rw f q, h)
]
