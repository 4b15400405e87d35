-- ===== src/Gossip/Controller/Loops.antt =====
-- The loops of `anyFrom` (internal/controller/controller.go) end, and find a floor that can be
-- served above or below exactly when there is one.
use heis_test.Prelude.{
  ℕ, zero, suc, ◌+◌, ◌<◌, ◌≤◌, ◌≡◌, refl, ◌∙◌, ap, sym, true, false, ◌↔◌, arith, ltb, Bool-cases,
  inl, inr,
}
use heis_test.Prelude.Int.{pos, negsuc, ◌+ℤ◌, pos_part}
use heis_test.Gossip.Assigner.{Assignments}
use heis_test.Gossip.Controller.State.{Controller}
use heis_test.Gossip.Controller.Requests.{
  in_range, can_serve, any_loop, any_from, any_above, any_below,
}

in_range-pos : (c : Controller) (k : ℕ) → in_range c (pos k) ≡ ltb k (pos_part c.cfg.floors)
in_range-pos c k = ground arith

step_up : (k : ℕ) → pos k +ℤ pos 1 ≡ pos (suc k)
unfolding ◌+ℤ◌
step_up k = ground arith

step_down : (k : ℕ) → pos (suc k) +ℤ negsuc 0 ≡ pos k
unfolding ◌+ℤ◌
step_down k = ground arith

step_out : pos 0 +ℤ negsuc 0 ≡ negsuc 0
unfolding ◌+ℤ◌
step_out = refl

-- A floor between two that can be served.
abbrev pub Served : Controller → Assignments → ℕ → ℕ → Type 0
Served c asg lo hi = (g : ℕ) × (lo ≤ g) × (g < hi) × (can_serve c (pos g) asg ≡ true)

module _ (c : Controller) (asg : Assignments) where
  abbrev top : ℕ
  top = pos_part c.cfg.floors

  any_up_sound : (fuel k : ℕ) → any_loop c (pos 1) asg fuel (pos k) ≡ true → Served c asg k top
  unfolding any_loop
  any_up_sound zero k h = cc
  any_up_sound (suc fuel) k h = elim (Bool-cases (can_serve c (pos k) asg)) [
    | inl s ↦ (k, omega arith, ground (arith, in_range-pos c k), s)
    | inr s ↦
        let (g, lo, hi, found) =
          any_up_sound fuel (suc k) (ground (arith, in_range-pos c k, step_up k)) in
        (g, omega arith, hi, found)
  ]

  any_up_complete :
      (fuel k : ℕ)
      → top ≤ k + fuel
      → Served c asg k top
      → any_loop c (pos 1) asg fuel (pos k) ≡ true
  unfolding any_loop
  any_up_complete zero k enough (g, lo, hi, found) = absurd (omega arith)
  any_up_complete (suc fuel) k enough (g, lo, hi, found) =
      elim (Bool-cases (can_serve c (pos k) asg)) [
        | inl s ↦ ground (arith, in_range-pos c k)
        | inr s ↦
            let differs : ¬ (k ≡ g) = λ e. ground arith in
            let later = any_up_complete fuel (suc k) (omega arith) (g, omega arith, hi, found) in
            ground (arith, in_range-pos c k, step_up k)
      ]

  any_out : (fuel : ℕ) → any_loop c (negsuc 0) asg fuel (negsuc 0) ≡ false
  unfolding any_loop
  any_out zero = refl
  any_out (suc fuel) = ground arith

  any_down_sound :
      (fuel k : ℕ) → any_loop c (negsuc 0) asg fuel (pos k) ≡ true → Served c asg 0 (suc k)
  unfolding any_loop
  any_down_sound zero k h = cc
  any_down_sound (suc fuel) zero h = elim (Bool-cases (can_serve c (pos 0) asg)) [
    | inl s ↦ (0, omega arith, omega arith, s)
    | inr s ↦ absurd (ground (arith, any_out fuel, step_out))
  ]
  any_down_sound (suc fuel) (suc k) h = elim (Bool-cases (can_serve c (pos (suc k)) asg)) [
    | inl s ↦ (suc k, omega arith, omega arith, s)
    | inr s ↦
        let (g, lo, hi, found) = any_down_sound fuel k (ground (arith, step_down k)) in
        (g, lo, omega arith, found)
  ]

  any_down_complete :
      (fuel k : ℕ)
      → k < fuel
      → k < top
      → Served c asg 0 (suc k)
      → any_loop c (negsuc 0) asg fuel (pos k) ≡ true
  unfolding any_loop
  any_down_complete zero k enough inside s = absurd (omega arith)
  any_down_complete (suc fuel) zero enough inside (g, lo, hi, found) =
      let e : g ≡ 0 = omega arith in
      let here : can_serve c (pos 0) asg ≡ true =
        ap (λ x. can_serve c (pos x) asg) (sym e) ∙ found in
      ground (arith, in_range-pos c 0)
  any_down_complete (suc fuel) (suc k) enough inside (g, lo, hi, found) =
      elim (Bool-cases (can_serve c (pos (suc k)) asg)) [
        | inl s ↦ ground (arith, in_range-pos c (suc k))
        | inr s ↦
            let differs : ¬ (suc k ≡ g) = λ e. ground arith in
            let later =
              any_down_complete fuel k (omega arith) (omega arith) (g, lo, omega arith, found) in
            ground (arith, in_range-pos c (suc k), step_down k)
      ]

  any_below_sound : (f : ℕ) → any_below c (pos f) asg ≡ true → Served c asg 0 f
  unfolding any_below any_from
  any_below_sound zero h = absurd (ground (arith, any_out (suc top), step_out))
  any_below_sound (suc k) h = any_down_sound (suc top) k (rw (step_down k) at h)

  any_below_complete : (f : ℕ) → f ≤ top → Served c asg 0 f → any_below c (pos f) asg ≡ true
  unfolding any_below any_from
  any_below_complete zero h (g, lo, hi, found) = absurd (omega arith)
  any_below_complete (suc k) h s =
      rw (step_down k) (any_down_complete (suc top) k (omega arith) (omega arith) s)

  -- The loop of `anyBelow`, from a floor that is not negative and at most the number of floors,
  -- answers true exactly if a floor below it, from 0 on, can be served.
  pub any_below_iff :
      (f : ℕ) → f ≤ pos_part c.cfg.floors → (any_below c (pos f) asg ≡ true) ↔ Served c asg 0 f
  any_below_iff f h = (any_below_sound f, any_below_complete f h)

  -- The loop of `anyAbove`, from a floor that is not negative, answers true exactly if a floor
  -- above it and below the number of floors can be served.
  pub any_above_iff :
      (f : ℕ) → (any_above c (pos f) asg ≡ true) ↔ Served c asg (suc f) (pos_part c.cfg.floors)
  unfolding any_above any_from
  any_above_iff f = (
    λ h. any_up_sound (suc top) (suc f) (rw (step_up f) at h),
    λ s. rw (step_up f) (any_up_complete (suc top) (suc f) (omega arith) s),
  )
