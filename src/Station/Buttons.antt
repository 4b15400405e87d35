-- ===== src/Station/Buttons.antt =====
-- elevio/elevio.go: what a round of `PollButtons` reports.
pub mod Panics
use heis_test.Prelude.{
  ℕ, zero, suc, ◌+◌, ◌≤◌, ◌<◌, ◌≡◌, ◌≢◌, ◌↔◌, refl, sym, ◌∙◌, subst, ◌⊎◌, inl, inr, List, [], ◌∷◌,
  ◌++◌, true, false, Option, none, some, arith, Bool-cases, ◌==◌, ltb,
}
use mathlib.Core.List.{Memᴰ}
use heis_test.Station.Elevio.{num_floors, ButtonType, ButtonEvent}
use heis_test.Station.Elevator.{◌>>=◌}
use heis_test.Station.Bounds.{Runs, ran}
use heis_test.Station.Poll.{
  Pressed, event, poll_button, remember, report, seen, and_then, poll_floor, poll_floors,
  poll_buttons,
}
use heis_test.Station.Poll.Rounds.{
  Only, Only-subst, Once, event_injective, HasButton, Polled, Polled-map, and_then-Polled,
}
use heis_test.Station.Poll.Button.{poll_button-Polled}

Runs-map :
    {A : Type 0} {P Q : A → Type 0} {o : Option A} → ((a : A) → P a → Q a) → Runs P o → Runs Q o
Runs-map f (ran p) = ran (f _ p)

distinct :
    {f : ℕ} {b c : ButtonType} → b ≢ c → (g : ℕ) (d : ButtonType) → Only f b g d → Only f c g d → ⊥
distinct n g d p q = n (sym p.1 ∙ q.1)

module _ (floors : ℕ) (now : Pressed) where
  -- The buttons of one floor.
  abbrev At : ℕ → ℕ → ButtonType → Type 0
  At f g b = g ≡ f

  abbrev AnyOf : ℕ → ℕ → ButtonType → Type 0
  AnyOf f g b =
      Only f ButtonType.hall_up g b ⊎ (Only f ButtonType.hall_down g b ⊎ Only f ButtonType.cab g b)

  any_of : (f g : ℕ) (b : ButtonType) → g ≡ f → AnyOf f g b
  any_of f g ButtonType.hall_up e = inl (e, refl)
  any_of f g ButtonType.hall_down e = inr (inl (e, refl))
  any_of f g ButtonType.cab e = inr (inr (e, refl))

  floor_of : (f g : ℕ) (b : ButtonType) → AnyOf f g b → g ≡ f
  floor_of f g b (inl o) = o.0
  floor_of f g b (inr (inl o)) = o.0
  floor_of f g b (inr (inr o)) = o.0

  up_apart :
      (f g : ℕ) (b : ButtonType)
      → Only f ButtonType.hall_up g b
      → Only f ButtonType.hall_down g b ⊎ Only f ButtonType.cab g b
      → ⊥
  up_apart f g b o (inl p) = distinct (λ e. ground arith) g b o p
  up_apart f g b o (inr p) = distinct (λ e. ground arith) g b o p

  poll_floor-Polled :
      (f : ℕ) (prev : Pressed)
      → f < floors
      → f < num_floors
      → Runs (Polled floors now (At f) prev) (poll_floor floors now f prev)
  unfolding poll_floor
  poll_floor-Polled f prev h l =
      Runs-map (λ r. Polled-map floors now (floor_of f) (any_of f))
        (and_then-Polled floors now (up_apart f)
          (poll_button-Polled floors now prev f ButtonType.hall_up h l)
          (λ p.
            and_then-Polled floors now (distinct (λ e. ground arith))
              (poll_button-Polled floors now p f ButtonType.hall_down h l)
              (λ q. poll_button-Polled floors now q f ButtonType.cab h l)))

  -- The buttons of the floors from `f` on, below `t`.
  abbrev Between : ℕ → ℕ → ℕ → ButtonType → Type 0
  Between f t g b = (f ≤ g) × (g < t)

  lowest_or_above :
      (f t g : ℕ) (b : ButtonType) → f ≤ g → g < t → (At f g b ⊎ Between (suc f) t g b)
  lowest_or_above f t g b p q = elim (Bool-cases (g == f)) [
    | inl e ↦ inl (ground arith)
    | inr e ↦ inr (ground arith, q)
  ]

  poll_floors-Polled :
      (n f t : ℕ) (prev : Pressed)
      → f + n ≡ t
      → t ≤ floors
      → floors ≤ num_floors
      → Runs (Polled floors now (Between f t) prev) (poll_floors floors now n f prev)
  unfolding poll_floors
  poll_floors-Polled zero f t prev h u l = ran (record {
    sound = λ ev m. elim m [ ];
    once = tt;
    complete = λ g c d. absurd (omega (arith, d.0, d.1));
    read = λ g c d. absurd (omega (arith, d.0, d.1));
    kept = λ g c n. refl;
  })
  poll_floors-Polled (suc n) f t prev h u l =
      Runs-map
        (λ r.
          Polled-map floors now {D = λ g b. At f g b ⊎ Between (suc f) t g b}
            (λ g b d. elim d [
              | inl e ↦ (ground arith, ground arith)
              | inr (p, q) ↦ (omega arith, q)
            ])
            (λ g b (p, q). lowest_or_above f t g b p q))
        (and_then-Polled floors now (λ g b e (p, q). omega arith)
          (poll_floor-Polled f prev (omega arith) (omega arith))
          (λ p. poll_floors-Polled n (suc f) t p (omega arith) u l))

  -- What a round has to do: it reports the buttons of the building that are pressed and were not,
  -- each once, and remembers the readings of all buttons of the building, and of these only.
  pub record Reports (prev : Pressed) (r : Pressed × List ButtonEvent) : Type 0 where
    pub news :
        (f : ℕ) (b : ButtonType)
        → Memᴰ (event f b) r.1 ↔ (HasButton floors f b × (now f b ≡ true) × (prev f b ≡ false))
    pub nothing_else :
        (ev : ButtonEvent) → Memᴰ ev r.1 → (f : ℕ) × (b : ButtonType) × (ev ≡ event f b)
    pub once : Once r.1
    pub read : (f : ℕ) (b : ButtonType) → HasButton floors f b → r.0 f b ≡ now f b
    pub kept : (f : ℕ) (b : ButtonType) → (HasButton floors f b → ⊥) → r.0 f b ≡ prev f b

  inside : (f : ℕ) (b : ButtonType) → HasButton floors f b → Between 0 floors f b
  inside f ButtonType.hall_up h = (omega arith, omega arith)
  inside f ButtonType.hall_down h = (omega arith, h.1)
  inside f ButtonType.cab h = (omega arith, h)

  Polled-Reports :
      (prev : Pressed) (r : Pressed × List ButtonEvent)
      → Polled floors now (Between 0 floors) prev r
      → Reports prev r
  Polled-Reports prev r h = record {
    news = λ f b. (
      λ m.
          let x = h.sound (event f b) m in
          let o = event_injective x.floor f x.button b (sym x.same) in
          Only-subst (λ f b. HasButton floors f b × (now f b ≡ true) × (prev f b ≡ false)) o
            (x.exists, x.pressed, x.released),
      λ (has, on, off). h.complete f b (inside f b has) has on off,
    );
    nothing_else = λ ev m. let x = h.sound ev m in (x.floor, x.button, x.same);
    once = h.once;
    read = λ f b has. h.read f b (inside f b has) has;
    kept = λ f b n. h.kept f b (λ _. n);
  }

  -- With at most NumFloors floors, a round of `PollButtons` gets a result: it sends the event of a
  -- button exactly if the building has the button (up below the top floor, down above the lowest,
  -- cab at each floor), the button is pressed now and was not at the last round; it sends nothing
  -- else and no event twice; and it remembers the readings of the building's buttons and leaves the
  -- others as they were.
  pub poll_buttons-Reports :
      (prev : Pressed) → floors ≤ num_floors → Runs (Reports prev) (poll_buttons floors now prev)
  unfolding poll_buttons
  poll_buttons-Reports prev l =
      Runs-map (Polled-Reports prev)
        (poll_floors-Polled floors 0 floors prev (omega arith) (omega arith) l)
