-- ===== src/Station/Poll/Button.antt =====
-- elevio/elevio.go: a poll of one button in `PollButtons`.
use heis_test.Prelude.{
  ℕ, ◌<◌, ◌≡◌, sym, refl, List, [], ◌∷◌, Bool, true, false, arith, inl, inr, Bool-cases, ltb, ◌&&◌,
  ◌==◌,
}
use mathlib.Core.List.{Memᴰ}
use heis_test.Station.Elevio.{num_floors, ButtonType, ButtonEvent}
use heis_test.Station.Bounds.{Runs, ran, Runs->>=}
use heis_test.Station.Poll.{
  Pressed, is_missing, event, eq_button, put, seen, remember, report, poll_button,
}
use heis_test.Station.Poll.Rounds.{Only, Only-subst, Once, HasButton, present, absent, Polled}

eq_button_self : (b : ButtonType) → eq_button b b ≡ true
eq_button_self ButtonType.hall_up = refl
eq_button_self ButtonType.hall_down = refl
eq_button_self ButtonType.cab = refl

eq_button_sound : (b c : ButtonType) → eq_button b c ≡ true → c ≡ b
eq_button_sound ButtonType.hall_up ButtonType.hall_up e = refl
eq_button_sound ButtonType.hall_down ButtonType.hall_down e = refl
eq_button_sound ButtonType.cab ButtonType.cab e = refl
eq_button_sound ButtonType.hall_up ButtonType.hall_down e = absurd (ground arith)
eq_button_sound ButtonType.hall_up ButtonType.cab e = absurd (ground arith)
eq_button_sound ButtonType.hall_down ButtonType.hall_up e = absurd (ground arith)
eq_button_sound ButtonType.hall_down ButtonType.cab e = absurd (ground arith)
eq_button_sound ButtonType.cab ButtonType.hall_up e = absurd (ground arith)
eq_button_sound ButtonType.cab ButtonType.hall_down e = absurd (ground arith)

ltb-true : (m n : ℕ) → m < n → ltb m n ≡ true
ltb-true m n l = ground arith

put-here : (prev : Pressed) (f : ℕ) (b : ButtonType) (v : Bool) → put prev f b v f b ≡ v
put-here prev f b v = ground (arith, eq_button_self b)

put-other :
    (prev : Pressed) (f : ℕ) (b : ButtonType) (v : Bool) (g : ℕ) (c : ButtonType)
    → (Only f b g c → ⊥)
    → put prev f b v g c ≡ prev g c
put-other prev f b v g c n = elim (Bool-cases (f == g && eq_button b c)) [
  | inl t ↦ absurd (n (ground arith, eq_button_sound b c (ground arith)))
  | inr e ↦ rw e refl
]

module _ (floors : ℕ) (now prev : Pressed) (f : ℕ) (b : ButtonType) where
  -- A poll of a button that is there.
  polled :
      (es : List ButtonEvent)
      → Once es
      → HasButton floors f b
      → ((ev : ButtonEvent) → Memᴰ ev es → (ev ≡ event f b) × (now f b ≡ true) × (prev f b ≡ false))
      → (now f b ≡ true → prev f b ≡ false → Memᴰ (event f b) es)
      → Polled floors now (Only f b) prev (put prev f b (now f b), es)
  polled es single has sound complete = record {
    sound = λ ev m.
        let x = sound ev m in
        record {
          floor = f;
          button = b;
          same = x.0;
          among = (refl, refl);
          exists = has;
          pressed = x.1;
          released = x.2;
        };
    once = single;
    complete = λ g c o h.
        Only-subst (λ g c. now g c ≡ true → prev g c ≡ false → Memᴰ (event g c) es) o complete;
    read = λ g c o h.
        Only-subst (λ g c. put prev f b (now f b) g c ≡ now g c) o (put-here prev f b (now f b));
    kept =
        λ g c n. put-other prev f b (now f b) g c (λ o. n o (Only-subst (HasButton floors) o has));
  }

  not_there :
      is_missing floors f b ≡ true
      → (g : ℕ) (c : ButtonType) → Only f b g c
      → HasButton floors g c
      → ⊥
  not_there e g c o h =
      let h' = Only-subst (HasButton floors) (sym o.0, sym o.1) h in
      absurd (ground (arith, present floors f b h'))

  -- A poll of a button that is not there.
  skipped : is_missing floors f b ≡ true → Polled floors now (Only f b) prev (prev, [])
  skipped e = record {
    sound = λ ev m. elim m [ ];
    once = tt;
    complete = λ g c o h. absurd (not_there e g c o h);
    read = λ g c o h. absurd (not_there e g c o h);
    kept = λ g c n. refl;
  }

  -- What is sent for a reading.
  abbrev Reported : Bool → List ButtonEvent → Type 0
  Reported v es =
      Once es
      × ((ev : ButtonEvent) → Memᴰ ev es → (ev ≡ event f b) × (v ≡ true) × (prev f b ≡ false))
      × (v ≡ true → prev f b ≡ false → Memᴰ (event f b) es)

  silent : (v : Bool) → (v ≡ true → prev f b ≡ false → ⊥) → Reported v []
  silent v n = (tt, λ ev m. elim m [ ], λ p q. absurd (n p q))

  spoken : (v : Bool) → v ≡ true → prev f b ≡ false → Reported v (event f b ∷ [])
  spoken v p q = (
    (λ m. elim m [ ], tt),
    λ ev m. elim m [ Memᴰ.head e ↦ (e, p, q) | Memᴰ.tail n ↦ elim n [ ] ],
    λ _ _. Memᴰ.head refl,
  )

  report-Runs : (v : Bool) → f < num_floors → Runs (Reported v) (report prev f b v)
  unfolding report seen
  report-Runs true l = elim (Bool-cases (prev f b)) [
    | inl w ↦ rw (ltb-true f num_floors l, w) (ran (silent true (λ _ q. ground arith)))
    | inr w ↦ rw (ltb-true f num_floors l, w) (ran (spoken true refl w))
  ]
  report-Runs false l = ran (silent false (λ p _. ground arith))

  pub poll_button-Polled :
      f < floors
      → f < num_floors
      → Runs (Polled floors now (Only f b) prev) (poll_button floors now f b prev)
  unfolding poll_button remember
  poll_button-Polled h l = elim (Bool-cases (is_missing floors f b)) [
    | inl e ↦ rw e (ran (skipped e))
    | inr e ↦ rw e (
        Runs->>= (report-Runs (now f b) l) (λ es r.
          rw (ltb-true f num_floors l) (ran (polled es r.0 (absent floors f b h e) r.1 r.2))))
  ]
