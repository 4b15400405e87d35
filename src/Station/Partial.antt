-- ===== src/Station/Partial.antt =====
-- What every result of a partial operation satisfies, when there is one.
use heis_test.Prelude.{◌≡◌, refl, subst, Bool, true, false, Option, none, some, if◌then◌else◌}
use heis_test.Station.Elevator.{◌>>=◌}

pub data Every {A : Type 0} (P : A → Type 0) : Option A → Type 0 where
  nothing : Every P none
  just : {a : A} → P a → Every P (some a)

pub Every->>= :
    {A B : Type 0} {P : A → Type 0} {Q : B → Type 0} {o : Option A} {f : A → Option B}
    → Every P o
    → ((a : A) → P a → Every Q (f a))
    → Every Q (o >>= f)
Every->>= nothing k = nothing
Every->>= (just p) k = k _ p

pub Every-if :
    {A : Type 0} {P : A → Type 0} (b : Bool) {o p : Option A}
    → (b ≡ true → Every P o)
    → (b ≡ false → Every P p)
    → Every P (if b then o else p)
Every-if true t f = t refl
Every-if false t f = f refl

pub any_result : {A : Type 0} (o : Option A) → Every (λ a. o ≡ some a) o
any_result none = nothing
any_result (some a) = just refl

Holds : {A : Type 0} (P : A → Type 0) → Option A → Type 0
Holds P none = Unit
Holds P (some a) = P a

Every-Holds : {A : Type 0} {P : A → Type 0} {o : Option A} → Every P o → Holds P o
unfolding Holds
Every-Holds nothing = tt
Every-Holds (just p) = p

pub Every-some : {A : Type 0} {P : A → Type 0} {o : Option A} {a : A} → Every P o → o ≡ some a → P a
unfolding Holds
Every-some {P = P} p q = subst (Holds P) q (Every-Holds p)
