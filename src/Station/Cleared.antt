-- ===== src/Station/Cleared.antt =====
-- elevator/requests.go: what `ClearAtCurrentFloor` takes from the requests.
use heis_test.Prelude.{
  ℕ, ◌≡◌, refl, subst, Bool, true, false, some, ◌||◌, ◌&&◌, not, ◌==◌, ltb, arith, if◌then◌else◌,
}
use heis_test.Prelude.Int.{pos}
use heis_test.Station.Elevio.{MotorDirection, num_floors}
use heis_test.Station.Elevator.{
  Row, Requests, Elevator, row, set_row, requests_above, requests_below, clear_row,
  clear_at_current_floor,
}
use heis_test.Station.Partial.{Every, nothing, just, Every->>=, Every-if, any_result, Every-some}

-- The hall requests of a row that go in a direction; both where the car has none.
abbrev pub along : MotorDirection → Row → Bool
along MotorDirection.up r = r.hall_up
along MotorDirection.down r = r.hall_down
along MotorDirection.stop r = r.hall_up || r.hall_down

-- A row that loses the cab request and those along the direction, and gains none.
pub record IsServed (d : MotorDirection) (before after : Row) : Type 0 where
  pub cab : after.cab ≡ false
  pub along_off : along d after ≡ false
  pub up : after.hall_up ≡ true → before.hall_up ≡ true
  pub down : after.hall_down ≡ true → before.hall_down ≡ true

if_kept : (b v : Bool) → (if b then false else v) ≡ true → v ≡ true
if_kept true v h = ground arith
if_kept false v h = h

clear_row-IsServed :
    (d : MotorDirection) (e : Elevator) (r : Row)
    → Every (IsServed d r) (clear_row d e (record r { cab = false }))
unfolding clear_row
clear_row-IsServed MotorDirection.up e r = Every->>= (any_result (requests_above e)) (λ a _.
    just (record {
      cab = refl;
      along_off = refl;
      up = λ (h : false ≡ true). cc;
      down = if_kept (not a && not r.hall_up) r.hall_down;
    }))
clear_row-IsServed MotorDirection.down e r = Every->>= (any_result (requests_below e)) (λ a _.
    just (record {
      cab = refl;
      along_off = refl;
      up = if_kept (not a && not r.hall_down) r.hall_up;
      down = λ (h : false ≡ true). cc;
    }))
clear_row-IsServed MotorDirection.stop e r = just (record {
  cab = refl;
  along_off = refl;
  up = λ (h : false ≡ true). cc;
  down = λ (h : false ≡ true). cc;
})

-- Floor `n` is served and the other floors are as before.
pub record ServesOnly (n : ℕ) (d : MotorDirection) (before after : Requests) : Type 0 where
  pub here : IsServed d (before n) (after n)
  pub elsewhere : (g : ℕ) → (n == g) ≡ false → after g ≡ before g

same_floor : (n : ℕ) → (n == n) ≡ true
same_floor n = ground arith

row-same : (n : ℕ) (rs : Requests) → Every (λ r. r ≡ rs n) (row (pos n) rs)
unfolding row
row-same n rs = Every-if (ltb n num_floors) (λ _. just refl) (λ _. nothing)

set_twice :
    (n : ℕ) (d : MotorDirection) (r₁ r₂ : Row) (rs : Requests)
    → IsServed d (rs n) r₂
    → ServesOnly n d rs (set_row (pos n) r₂ (set_row (pos n) r₁ rs))
unfolding set_row
set_twice n d r₁ r₂ rs h = record { here = rw (same_floor n) h; elsewhere = λ g m. rw m refl }

clear_at-ServesOnly :
    (n : ℕ) (e : Elevator)
    → e.floor ≡ pos n
    → Every (λ e₁. ServesOnly n e.dir e.requests e₁.requests) (clear_at_current_floor e)
unfolding clear_at_current_floor
clear_at-ServesOnly n e p = rw p (
    Every->>= (row-same n e.requests) (λ r q.
      let r₁ = record r { cab = false } in
      let e₁ = record e { floor = pos n; requests = set_row (pos n) r₁ e.requests } in
      Every->>= (clear_row-IsServed e.dir e₁ r)
        (λ r₂ h. just (set_twice n e.dir r₁ r₂ e.requests (subst (λ x. IsServed e.dir x r₂) q h)))))

-- Where `ClearAtCurrentFloor` has a result for a car at a floor that is not negative: the floor's
-- cab request and its hall request in the car's direction are off, both hall requests if the car
-- has no direction, no request of the floor is on that was off, and the other floors are as before.
pub clear_at_current_floor-ServesOnly :
    (n : ℕ) (e e₁ : Elevator)
    → e.floor ≡ pos n
    → clear_at_current_floor e ≡ some e₁
    → ServesOnly n e.dir e.requests e₁.requests
clear_at_current_floor-ServesOnly n e e₁ p q = Every-some (clear_at-ServesOnly n e p) q
