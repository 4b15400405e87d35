-- ===== src/Gossip/Mock/Travel.antt =====
-- How the simulated car moves (internal/driver/mock/mock.go).
use heis_test.Prelude.{
  length, ℕ, ◌≡◌, List, [], ◌∷◌, true, false, not, ◌||◌, ltb, arith, Bool-cases, inl, inr, ◌-◌,
}
use heis_test.Prelude.Int.{pos, ◌+ℤ◌, ltb_ℤ}
use heis_test.Gossip.Model.Kinds.{Direction, direction_int, eq_direction}
use heis_test.Gossip.Mock.{MockDriver, report_floor, travel, step, steps, capacity}

-- The car is at a floor of the building.
pub record IsIndoors (d : MockDriver) : Type 0 where
  pub low : ltb_ℤ d.floor (pos 0) ≡ false
  pub high : ltb_ℤ d.floor d.cfg.floors ≡ true

report_floor-IsIndoors : (d : MockDriver) → IsIndoors d → IsIndoors (report_floor d)
unfolding report_floor
report_floor-IsIndoors d h = elim (Bool-cases (ltb (length d.floors) capacity)) [
  | inl t ↦ rw t (record { low = h.low; high = h.high })
  | inr f ↦ rw f h
]

travel-IsIndoors : (now : ℕ) (d : MockDriver) → IsIndoors d → IsIndoors (travel now d)
unfolding travel
travel-IsIndoors now d h =
    let next = d.floor +ℤ direction_int d.motor in
    elim (Bool-cases (ltb_ℤ next (pos 0) || not (ltb_ℤ next d.cfg.floors))) [
      | inl t ↦ rw t (record { low = h.low; high = h.high })
      | inr f ↦ rw f (
          report_floor-IsIndoors (record d { floor = next; last_move = now })
            (record { low = ground arith; high = ground arith }))
    ]

step-IsIndoors : (now : ℕ) (d : MockDriver) → IsIndoors d → IsIndoors (step now d)
unfolding step
step-IsIndoors now d h = elim (Bool-cases (eq_direction d.motor Direction.stop)) [
  | inl t ↦ rw t (record { low = h.low; high = h.high })
  | inr f ↦ elim (Bool-cases (ltb (now - d.last_move) d.cfg.travel_duration)) [
    | inl s ↦ rw f (rw s h)
    | inr s ↦ rw f (rw s (travel-IsIndoors now d h))
  ]
]

-- A simulated car that is at a floor of its building stays in the building, however many rounds of
-- the ticker it makes and at whatever times.
pub steps-IsIndoors : (times : List ℕ) (d : MockDriver) → IsIndoors d → IsIndoors (steps times d)
unfolding steps
steps-IsIndoors [] d h = h
steps-IsIndoors (now ∷ times) d h = steps-IsIndoors times (step now d) (step-IsIndoors now d h)

report_floor_floor : (d : MockDriver) → (report_floor d).floor ≡ d.floor
unfolding report_floor
report_floor_floor d = ground arith
