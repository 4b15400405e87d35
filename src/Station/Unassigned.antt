-- ===== src/Station/Unassigned.antt =====
-- Who can be given a hall request (hallassigner/hallassigner.go): the known elevators only.
use heis_test.Prelude.{
  ℕ, zero, suc, ◌≡◌, ◌≢◌, refl, sym, ap, ◌∙◌, [], ◌∷◌, map, Bool, true, false, Option, none, some,
  arith, Bool-cases, inl, inr, if_pos, if_neg,
}
use heis_test.Prelude.Assoc
use heis_test.Prelude.Int.{ℤ, pos}
use heis_test.Station.Elevio.{ButtonType, num_floors}
use heis_test.Station.HallAssigner.{
  PeerId, PeerId-discrete, HallRequests, ElevatorState, Elevators, Assignments, cost, is_below,
  best_from, cab_matrix, give_to, give, or_empty, assign_button, assign_from, assign,
}

module _ (me : PeerId) where
  get?-cab_matrix :
      (es : Elevators)
      → Assoc.get? PeerId-discrete me es ≡ none
      → Assoc.get? PeerId-discrete me (map (λ p. (p.0, cab_matrix p.1)) es) ≡ none
  unfolding Assoc.get?
  get?-cab_matrix [] h = refl
  get?-cab_matrix ((id, e) ∷ es) h = ground (arith, get?-cab_matrix es)

  best_from-known :
      (floor : ℤ) (b : ButtonType) (best : Option PeerId) (c : Option ℕ) (es : Elevators)
      → Assoc.get? PeerId-discrete me es ≡ none
      → best ≢ some me
      → best_from floor b best c es ≢ some me
  unfolding best_from Assoc.get?
  best_from-known floor b best c [] h n = n
  best_from-known floor b best c ((id, e) ∷ es) h n = elim (PeerId-discrete id me) [
    | yes p ↦ ground (arith, if_pos {C = Option ElevatorState} (PeerId-discrete id me) p (some e) _)
    | no p ↦
        let q : Assoc.get? PeerId-discrete me es ≡ none =
          sym (if_neg (PeerId-discrete id me) p _ _) ∙ h in
        elim (Bool-cases (is_below (cost e floor b) c)) [
          | inl t ↦ rw t (best_from-known floor b (some id) (cost e floor b) es q (ground arith))
          | inr f ↦ rw f (best_from-known floor b best c es q n)
        ]
  ]

  give_to-other :
      (floor : ℕ) (b : ButtonType) (best : Option PeerId) (m : Assignments)
      → best ≢ some me
      → Assoc.get? PeerId-discrete me m ≡ none
      → Assoc.get? PeerId-discrete me (give_to floor b best m) ≡ none
  unfolding give_to
  give_to-other floor b none m n h = h
  give_to-other floor b (some []) m n h = h
  give_to-other floor b (some (x ∷ id)) m n h =
      Assoc.get?-put PeerId-discrete (x ∷ id) me
        (give floor b (or_empty (Assoc.get? PeerId-discrete (x ∷ id) m))) m
      ∙ if_neg (PeerId-discrete (x ∷ id) me) (λ p. n (ap some p))
          (some (give floor b (or_empty (Assoc.get? PeerId-discrete (x ∷ id) m)))) _
      ∙ h

  module _ (es : Elevators) (h : Assoc.get? PeerId-discrete me es ≡ none) where
    assign_button-other :
        (f : ℕ) (b : ButtonType) (on : Bool) (m : Assignments)
        → Assoc.get? PeerId-discrete me m ≡ none
        → Assoc.get? PeerId-discrete me (assign_button es f b on m) ≡ none
    unfolding assign_button
    assign_button-other f b true m g =
        give_to-other f b _ m (best_from-known (pos f) b none none es h (ground arith)) g
    assign_button-other f b false m g = g

    assign_from-other :
        (hall : HallRequests) (n f : ℕ) (m : Assignments)
        → Assoc.get? PeerId-discrete me m ≡ none
        → Assoc.get? PeerId-discrete me (assign_from hall es n f m) ≡ none
    unfolding assign_from
    assign_from-other hall zero f m g = g
    assign_from-other hall (suc n) f m g =
        assign_from-other hall n (suc f) _
          (assign_button-other f _ _ _ (assign_button-other f _ _ _ g))

    pub get?-assign_other :
        (hall : HallRequests) → Assoc.get? PeerId-discrete me (assign hall es) ≡ none
    unfolding assign
    get?-assign_other hall = assign_from-other hall num_floors 0 _ (get?-cab_matrix es h)
