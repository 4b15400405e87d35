-- ===== src/Gossip/Cluster/Same.antt =====
-- Merging lists with the same entries, in whatever order and however often (internal/cluster/merge.go).
use heis_test.Prelude.{
  ◌≡◌, refl, sym, ◌∙◌, ap, subst, false, List, [], ◌∷◌, if_pos, if_neg, arith, All, Bool-cases, inl,
  inr, ◌⊎◌, ◌≢◌, All-member,
}
use mathlib.Core.List.{Memᴰ}
use heis_test.Gossip.Model.Key.{RequestKey, RequestKey-discrete}
use heis_test.Gossip.Model.Table.{RequestCell, RequestEntry}
use heis_test.Gossip.Cluster.Merge.{is_newer, join, join_all}
use heis_test.Gossip.Cluster.Convergence.{IsFamily, newer_asym, newer_total, newer_trans}

join_all-same :
    (k : RequestKey) (c : RequestCell) (e : RequestEntry) (es : List RequestEntry)
    → e.key ≡ k
    → join_all k c (e ∷ es) ≡ join_all k (join c e.cell) es
unfolding join_all
join_all-same k c e es p =
    ap (λ d. join_all k d es) (if_pos (RequestKey-discrete e.key k) p (join c e.cell) c)

join_all-other :
    (k : RequestKey) (c : RequestCell) (e : RequestEntry) (es : List RequestEntry)
    → e.key ≢ k
    → join_all k c (e ∷ es) ≡ join_all k c es
unfolding join_all
join_all-other k c e es p =
    ap (λ d. join_all k d es) (if_neg (RequestKey-discrete e.key k) p (join c e.cell) c)

module _ (P : RequestCell → Type 0) (F : IsFamily P) (k : RequestKey) where
  -- What the entries of the key offer belongs to the family.
  abbrev pub Offers : List RequestEntry → Type 0
  Offers = All (λ e. e.key ≡ k → P e.cell)

  pub newer_irrefl : (a : RequestCell) → P a → is_newer a a ≡ false
  newer_irrefl a pa = ground (arith, newer_asym P F a a pa pa)

  not_newer_trans :
      (a b c : RequestCell)
      → P a
      → P b
      → P c
      → is_newer a b ≡ false
      → is_newer b c ≡ false
      → is_newer a c ≡ false
  not_newer_trans a b c pa pb pc h h' =
      ground
        (arith, newer_trans P F a c b pa pc pb, newer_total P F b c pb pc, newer_asym P F c b pc pb)

  join_stays :
      (x c d : RequestCell) → P x → P c → P d → is_newer x c ≡ false → is_newer x (join c d) ≡ false
  unfolding join
  join_stays x c d px pc pd h = elim (Bool-cases (is_newer d c)) [
    | inl e ↦ rw e (not_newer_trans x c d px pc pd h (newer_asym P F d c pd pc e))
    | inr e ↦ rw e h
  ]

  join_member : (c d : RequestCell) → P c → P d → P (join c d)
  unfolding join
  join_member c d pc pd = elim (Bool-cases (is_newer d c)) [ inl e ↦ rw e pd | inr e ↦ rw e pc ]

  join_offered : (c d : RequestCell) → P d → is_newer d (join c d) ≡ false
  unfolding join
  join_offered c d pd = elim (Bool-cases (is_newer d c)) [
    | inl e ↦ rw e (ground (arith, newer_asym P F d d pd pd))
    | inr e ↦ rw e e
  ]

  -- What was not newer than the cell at the start is not newer at the end.
  pub join_all_stays :
      (x c : RequestCell) (es : List RequestEntry)
      → P x
      → P c
      → Offers es
      → is_newer x c ≡ false
      → is_newer x (join_all k c es) ≡ false
  unfolding join_all
  join_all_stays x c [] px pc o h = h
  join_all_stays x c (e ∷ es) px pc o h = elim (RequestKey-discrete e.key k) [
    | yes p ↦ rw (join_all-same k c e es p) (
        join_all_stays x (join c e.cell) es px (join_member c e.cell pc (o.0 p)) o.1
          (join_stays x c e.cell px pc (o.0 p) h))
    | no p ↦ rw (join_all-other k c e es p) (join_all_stays x c es px pc o.1 h)
  ]

  -- No entry of the key is newer than the end.
  pub join_all_offered :
      (c : RequestCell) (e : RequestEntry) (es : List RequestEntry)
      → P c
      → Offers es
      → Memᴰ e es
      → e.key ≡ k
      → is_newer e.cell (join_all k c es) ≡ false
  unfolding join_all
  join_all_offered c e [] pc o m same = elim m [ ]
  join_all_offered c e (f ∷ es) pc o (Memᴰ.head q) same =
      let p : f.key ≡ k = ap (λ (x : RequestEntry). x.key) (sym q) ∙ same in
      rw (join_all-same k c f es p) (
        rw q (
          join_all_stays f.cell (join c f.cell) es (o.0 p) (join_member c f.cell pc (o.0 p)) o.1
            (join_offered c f.cell (o.0 p))))
  join_all_offered c e (f ∷ es) pc o (Memᴰ.tail m) same = elim (RequestKey-discrete f.key k) [
    | yes p ↦
        rw (join_all-same k c f es p)
          (join_all_offered (join c f.cell) e es (join_member c f.cell pc (o.0 p)) o.1 m same)
    | no p ↦ rw (join_all-other k c f es p) (join_all_offered c e es pc o.1 m same)
  ]

  -- The end is the cell at the start or that of an entry of the key.
  abbrev Origin : RequestCell → List RequestEntry → RequestCell → Type 0
  Origin c es d = (d ≡ c) ⊎ ((e : RequestEntry) × Memᴰ e es × (e.key ≡ k) × (e.cell ≡ d))

  join_all-Origin : (c : RequestCell) (es : List RequestEntry) → Origin c es (join_all k c es)
  unfolding join_all join
  join_all-Origin c [] = inl refl
  join_all-Origin c (f ∷ es) = elim (RequestKey-discrete f.key k) [
    | yes p ↦ rw (join_all-same k c f es p) (elim (Bool-cases (is_newer f.cell c)) [
      | inl n ↦ rw n (elim (join_all-Origin f.cell es) [
        | inl q ↦ inr (f, Memᴰ.head refl, p, sym q)
        | inr (e, m, same, q) ↦ inr (e, Memᴰ.tail m, same, q)
      ])
      | inr n ↦ rw n (elim (join_all-Origin c es) [
        | inl q ↦ inl q
        | inr (e, m, same, q) ↦ inr (e, Memᴰ.tail m, same, q)
      ])
    ])
    | no p ↦ rw (join_all-other k c f es p) (elim (join_all-Origin c es) [
      | inl q ↦ inl q
      | inr (e, m, same, q) ↦ inr (e, Memᴰ.tail m, same, q)
    ])
  ]

  Origin-member :
      (c d : RequestCell) (es : List RequestEntry) → P c → Offers es → Origin c es d → P d
  Origin-member c d es pc o (inl q) = subst P (sym q) pc
  Origin-member c d es pc o (inr (e, m, same, q)) =
      subst P q (All-member (λ e. e.key ≡ k → P e.cell) m o same)

  -- A result that is not older than what another was made from is not older than the other.
  join_all_absorbs :
      (c : RequestCell) (es fs : List RequestEntry)
      → P c
      → Offers es
      → Offers fs
      → ((e : RequestEntry) → Memᴰ e es → Memᴰ e fs)
      → is_newer (join_all k c es) (join_all k c fs) ≡ false
  join_all_absorbs c es fs pc o o' sub = elim (join_all-Origin c es) [
    | inl q ↦ rw q (join_all_stays c c fs pc pc o' (ground (arith, newer_asym P F c c pc pc)))
    | inr (e, m, same, q) ↦ rw⁻¹ q (join_all_offered c e fs pc o' (sub e m) same)
  ]

  pub join_all_same_entries :
      (c : RequestCell) (es fs : List RequestEntry)
      → P c
      → Offers es
      → Offers fs
      → ((e : RequestEntry) → Memᴰ e es → Memᴰ e fs)
      → ((e : RequestEntry) → Memᴰ e fs → Memᴰ e es)
      → join_all k c es ≡ join_all k c fs
  join_all_same_entries c es fs pc o o' sub sup =
      newer_total P F _ _ (Origin-member c _ es pc o (join_all-Origin c es))
        (Origin-member c _ fs pc o' (join_all-Origin c fs)) (join_all_absorbs c es fs pc o o' sub)
        (join_all_absorbs c fs es pc o' o sup)
