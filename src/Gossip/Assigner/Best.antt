-- ===== src/Gossip/Assigner/Best.antt =====
-- The elevator that the assigner chooses for a hall request is the cheapest, and of the cheapest the
-- one with the lowest ID (internal/assigner/assigner.go).
use heis_test.Prelude.{
  ℕ, ◌≡◌, List, [], ◌∷◌, All, Permᴰ, Bool-cases, inl, inr, ap, sym, ◌∙◌, refl, true, false, arith,
  Ordering, compare, ◌⊎◌,
}
use heis_test.Prelude.Int.{ℤ, compare_ℤ}
use heis_test.Prelude.Compare.{
  IsCompare, lex, lex-IsCompare, compare-IsCompare, compare_ℤ-IsCompare, is_gt, not_gt_trans,
}
use heis_test.Gossip.Model.Key.{RequestKey}
use heis_test.Gossip.Model.Soft.{SoftState}
use heis_test.Gossip.Assigner.{cost, is_better, best_from, best_of}

-- A bid is a cost with the ID of the bidder.
abbrev pub compare_bid : ℤ × ℕ → ℤ × ℕ → Ordering
compare_bid = lex compare_ℤ compare

pub compare_bid-IsCompare : IsCompare compare_bid
compare_bid-IsCompare = lex-IsCompare compare_ℤ-IsCompare compare-IsCompare

abbrev pub bid : RequestKey → SoftState → ℤ × ℕ
bid key s = (cost s key, s.id)

-- No state of the list bids below `b`.
abbrev pub IsLowest : RequestKey → ℤ × ℕ → List SoftState → Type 0
IsLowest key b states = All (λ s. is_gt (compare_bid b (bid key s)) ≡ false) states

-- One of the states of the list makes the bid.
abbrev pub Bids : RequestKey → ℤ × ℕ → List SoftState → Type 0
Bids key b [] = ⊥
Bids key b (s ∷ states) = (bid key s ≡ b) ⊎ Bids key b states

better-bid :
    (c : ℤ) (i : ℕ) (b : ℤ) (j : ℕ)
    → is_better c i b j ≡ true
    → is_gt (compare_bid (c, i) (b, j)) ≡ false
better-bid c i b j h = ground arith

worse-bid :
    (c : ℤ) (i : ℕ) (b : ℤ) (j : ℕ)
    → is_better c i b j ≡ false
    → is_gt (compare_bid (b, j) (c, i)) ≡ false
worse-bid c i b j h = ground arith

pub le_trans_bid :
    (a b c : ℤ × ℕ)
    → is_gt (compare_bid a b) ≡ false
    → is_gt (compare_bid b c) ≡ false
    → is_gt (compare_bid a c) ≡ false
le_trans_bid = not_gt_trans compare_bid-IsCompare

-- The loop ends with a bid that no state and not the first best goes below.
best_from-IsLowest :
    (key : RequestKey) (i : ℕ) (c : ℤ) (states : List SoftState)
    → (b : ℤ × ℕ) × (b.1 ≡ best_from key i c states)
      × (is_gt (compare_bid b (c, i)) ≡ false)
      × IsLowest key b states
      × ((b ≡ (c, i)) ⊎ Bids key b states)
unfolding best_from
best_from-IsLowest key i c [] =
    ((c, i), refl, ap is_gt (compare_bid-IsCompare.self (c, i)), tt, inl refl)
best_from-IsLowest key i c (s ∷ states) = elim (Bool-cases (is_better (cost s key) s.id c i)) [
  | inl better ↦
      let (b, e, le, low, from) = best_from-IsLowest key s.id (cost s key) states in
      (
        b,
        rw better e,
        le_trans_bid b (cost s key, s.id) (c, i) le (better-bid (cost s key) s.id c i better),
        (le, low),
        elim from [ inl p ↦ inr (inl (sym p)) | inr q ↦ inr (inr q) ],
      )
  | inr worse ↦
      let (b, e, le, low, from) = best_from-IsLowest key i c states in
      (
        b,
        rw worse e,
        le,
        (le_trans_bid b (c, i) (cost s key, s.id) le (worse-bid (cost s key) s.id c i worse), low),
        elim from [ inl p ↦ inl p | inr q ↦ inr (inr q) ],
      )
]

-- The choice: the ID in the lowest bid that a state makes.
pub best_of-IsLowest :
    (key : RequestKey) (s : SoftState) (states : List SoftState)
    → (b : ℤ × ℕ) × (b.1 ≡ best_of key (s ∷ states))
      × IsLowest key b (s ∷ states)
      × Bids key b (s ∷ states)
unfolding best_of
best_of-IsLowest key s states =
    let (b, e, le, low, from) = best_from-IsLowest key s.id (cost s key) states in
    (b, e, (le, low), elim from [ inl p ↦ inl (sym p) | inr q ↦ inr q ])

-- A lowest bid is not above any bid that is made.
pub lowest-le :
    (key : RequestKey) (a b : ℤ × ℕ) (states : List SoftState)
    → IsLowest key a states
    → Bids key b states
    → is_gt (compare_bid a b) ≡ false
lowest-le key a b [] low bids = absurd bids
lowest-le key a b (s ∷ states) low (inl p) = ap (λ x. is_gt (compare_bid a x)) (sym p) ∙ low.0
lowest-le key a b (s ∷ states) low (inr q) = lowest-le key a b states low.1 q

pub Bids-Permᴰ :
    (key : RequestKey) (b : ℤ × ℕ) {xs ys : List SoftState}
    → Permᴰ xs ys
    → Bids key b xs
    → Bids key b ys
Bids-Permᴰ key b Permᴰ.nil h = h
Bids-Permᴰ key b (Permᴰ.cons e d) (inl p) = inl (ap (bid key) (sym e) ∙ p)
Bids-Permᴰ key b (Permᴰ.cons e d) (inr q) = inr (Bids-Permᴰ key b d q)
Bids-Permᴰ key b (Permᴰ.swap e f) (inl p) = inr (inl (ap (bid key) (sym e) ∙ p))
Bids-Permᴰ key b (Permᴰ.swap e f) (inr (inl p)) = inl (ap (bid key) (sym f) ∙ p)
Bids-Permᴰ key b (Permᴰ.swap e f) (inr (inr q)) = inr (inr q)
Bids-Permᴰ key b (Permᴰ.trans d d') h = Bids-Permᴰ key b d' (Bids-Permᴰ key b d h)
