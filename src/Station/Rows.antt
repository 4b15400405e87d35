-- ===== src/Station/Rows.antt =====
-- main.go: what a change of the table of hall requests leaves of a floor's row (a hall button,
-- `clearServedHall`, the merge of a hall message).
use heis_test.Prelude.{
  ℕ, ◌≡◌, refl, ap, Bool, true, false, ◌||◌, arith, Bool-cases, inl, inr, ltb, ◌==◌, ◌≢◌,
}
use heis_test.Prelude.Int.{ℤ, pos, negsuc}
use heis_test.Station.Elevio.{ButtonType, MotorDirection, num_floors}
use heis_test.Station.Elevator.{Elevator}
use heis_test.Station.Partial.{Every, nothing, just, Every->>=, Every-if, any_result}
use heis_test.Station.HallAssigner.{HallRow, HallRequests}
use heis_test.Station.World.{
  set_hall, put_hall, clear_served, requests_above_or_here, requests_below_or_here,
}
use heis_test.Station.Loop.{merge_hall}

-- The requests of a row are still in the table at a floor.
pub record IsKept (r : HallRow) (g : ℕ) (h : HallRequests) : Type 0 where
  pub up : r.up ≡ true → (h g).up ≡ true
  pub down : r.down ≡ true → (h g).down ≡ true

module _ (r : HallRow) (g : ℕ) where
  put_hall-IsKept :
      (b : ButtonType) (h : HallRequests) → IsKept r g h → IsKept r g (λ f. put_hall b true (h f))
  put_hall-IsKept ButtonType.hall_up h k = record { up = λ _. refl; down = k.down }
  put_hall-IsKept ButtonType.hall_down h k = record { up = k.up; down = λ _. refl }
  put_hall-IsKept ButtonType.cab h k = record { up = k.up; down = k.down }

  pub press-IsKept :
      (f : ℤ) (b : ButtonType) (h : HallRequests)
      → IsKept r g h
      → Every (IsKept r g) (set_hall f b true h)
  unfolding set_hall
  press-IsKept (pos f) b h k =
      Every-if (ltb f num_floors)
        (λ _. just (elim (Bool-cases (f == g)) [
          | inl t ↦
              let p = put_hall-IsKept b h k in
              record { up = λ q. rw t (p.up q); down = λ q. rw t (p.down q) }
          | inr n ↦ record { up = λ q. rw n (k.up q); down = λ q. rw n (k.down q) }
        ]))
        (λ _. nothing)
  press-IsKept (negsuc f) b h k = nothing

  -- Clearing another floor.
  clear-IsKept :
      (f : ℤ) (b : ButtonType) (h : HallRequests)
      → f ≢ pos g
      → IsKept r g h
      → Every (IsKept r g) (set_hall f b false h)
  unfolding set_hall
  clear-IsKept (pos f) b h n k =
      Every-if (ltb f num_floors)
        (λ _.
          let other : (f == g) ≡ false = elim (Bool-cases (f == g)) [
            | inl t ↦ let e : f ≡ g = ground arith in elim (n (ap pos e)) [ ]
            | inr m ↦ m
          ] in
          just (record { up = λ q. rw other (k.up q); down = λ q. rw other (k.down q) }))
        (λ _. nothing)
  clear-IsKept (negsuc f) b h n k = nothing

  pub clear_served-IsKept :
      (d : MotorDirection) (e : Elevator) (f : ℤ) (h : HallRequests)
      → f ≢ pos g
      → IsKept r g h
      → Every (IsKept r g) (clear_served d e f h)
  unfolding clear_served
  clear_served-IsKept MotorDirection.up e f h n k = Every->>= (clear-IsKept f _ h n k) (λ h₁ k₁.
      Every->>= (any_result (requests_above_or_here e f))
        (λ more _. Every-if more (λ _. just k₁) (λ _. clear-IsKept f _ h₁ n k₁)))
  clear_served-IsKept MotorDirection.down e f h n k = Every->>= (clear-IsKept f _ h n k) (λ h₁ k₁.
      Every->>= (any_result (requests_below_or_here e f))
        (λ more _. Every-if more (λ _. just k₁) (λ _. clear-IsKept f _ h₁ n k₁)))
  clear_served-IsKept MotorDirection.stop e f h n k =
      Every->>= (clear-IsKept f _ h n k) (λ h₁ k₁. clear-IsKept f _ h₁ n k₁)

  or_keeps : (a b : Bool) → a ≡ true → (a || b) ≡ true
  or_keeps true b q = refl
  or_keeps false b q = ground arith

  pub merge_hall-IsKept :
      (theirs mine : HallRequests) → IsKept r g mine → IsKept r g (merge_hall theirs mine)
  unfolding merge_hall
  merge_hall-IsKept theirs mine k = record {
    up = λ q. or_keeps (mine g).up _ (k.up q);
    down = λ q. or_keeps (mine g).down _ (k.down q);
  }
