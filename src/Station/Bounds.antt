-- ===== src/Station/Bounds.antt =====
-- elevator/requests.go and main.go read no row outside the matrix while the car is in the building.
use heis_test.Prelude.{
  ℕ, zero, suc, ◌+◌, ◌≤◌, ◌<◌, ◌≡◌, Bool, true, false, Option, some, arith, if◌then◌else◌,
  Bool-cases, inl, inr, ltb,
}
use heis_test.Prelude.Int.{ℤ, pos, ◌+ℤ◌, ◌-ℤ◌, pos_part, int_laws}
use heis_test.Station.Elevio.{num_floors}
use heis_test.Station.Elevator.{
  Requests, Elevator, any_button, row, ◌>>=◌, any_request, requests_above, requests_below,
  requests_here,
}

-- There is a result, and it satisfies a predicate.
pub data Runs {A : Type 0} (P : A → Type 0) : Option A → Type 0 where
  ran : {a : A} → P a → Runs P (some a)

pub Runs->>= :
    {A B : Type 0} {P : A → Type 0} {Q : B → Type 0} {o : Option A} {f : A → Option B}
    → Runs P o
    → ((a : A) → P a → Runs Q (f a))
    → Runs Q (o >>= f)
Runs->>= (ran p) k = k _ p

pub Runs-if :
    {A : Type 0} {P : A → Type 0} (b : Bool) {o p : Option A}
    → Runs P o
    → Runs P p
    → Runs P (if b then o else p)
Runs-if true t f = t
Runs-if false t f = f

-- A result, of which nothing else is said.
abbrev pub Any : {A : Type 0} → A → Type 0
Any a = Unit

-- A floor of the building.
pub data IsFloor : ℤ → Type 0 where
  in_building : (n : ℕ) → n < 4 → IsFloor (pos n)

pub row-Runs : (f : ℤ) (rs : Requests) → IsFloor f → Runs Any (row f rs)
unfolding row
row-Runs f rs (in_building n l) = elim (Bool-cases (ltb n 4)) [
  | inl t ↦ rw t (ran tt)
  | inr g ↦ ground arith
]

pub next_floor : (f : ℕ) → pos f +ℤ pos 1 ≡ pos (f + 1)
next_floor f = grind int_laws

any_request-Runs : (rs : Requests) (n f : ℕ) → f + n ≤ 4 → Runs Any (any_request rs n (pos f))
unfolding any_request
any_request-Runs rs zero f l = ran tt
any_request-Runs rs (suc n) f l =
    Runs->>= (row-Runs (pos f) rs (in_building f (ground arith))) (λ r _.
      Runs-if (any_button r) (ran tt)
        (rw (next_floor f) (any_request-Runs rs n (f + 1) (ground arith))))

pub above-Runs : (e : Elevator) → IsFloor e.floor → Runs Any (requests_above e)
unfolding requests_above
above-Runs e h = go e.floor h
  where
    go :
        (f : ℤ)
        → IsFloor f
        → Runs Any (any_request e.requests (pos_part (pos 4 -ℤ (f +ℤ pos 1))) (f +ℤ pos 1))
    go f (in_building n l) =
        rw (next_floor n)
          (any_request-Runs e.requests (pos_part (pos 4 -ℤ pos (n + 1))) (n + 1) (grind int_laws))

pub below-Runs : (e : Elevator) → IsFloor e.floor → Runs Any (requests_below e)
unfolding requests_below
below-Runs e h = go e.floor h
  where
    go : (f : ℤ) → IsFloor f → Runs Any (any_request e.requests (pos_part f) (pos 0))
    go f (in_building n l) = any_request-Runs e.requests n 0 (ground arith)

pub here-Runs : (e : Elevator) → IsFloor e.floor → Runs Any (requests_here e)
unfolding requests_here
here-Runs e h = Runs->>= (row-Runs e.floor e.requests h) (λ r _. ran tt)

-- The loops of `requestsAboveOrHere` and `requestsBelowOrHere`.
pub above-rounds :
    (e : Elevator) (f : ℤ)
    → IsFloor f
    → Runs Any (any_request e.requests (pos_part (pos num_floors -ℤ f)) f)
above-rounds e f (in_building n l) =
    any_request-Runs e.requests (pos_part (pos 4 -ℤ pos n)) n (grind int_laws)

pub below-rounds :
    (e : Elevator) (f : ℤ)
    → IsFloor f
    → Runs Any (any_request e.requests (pos_part (f +ℤ pos 1)) (pos 0))
below-rounds e f (in_building n l) =
    rw (next_floor n) (any_request-Runs e.requests (n + 1) 0 (ground arith))
