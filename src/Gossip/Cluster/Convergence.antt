-- ===== src/Gossip/Cluster/Convergence.antt =====
-- The fault-tolerance claim of README.md: "duplicated, delayed, or reordered packets converge by
-- version order". It is so for families of cells whose versions are coherent, and not for all.
use heis_test.Prelude.{
  ite, if_pos, if_neg, ◌≡◌, refl, sym, ◌∙◌, ap, true, false, List, if_neg, arith, All, All-Permᴰ,
  Permᴰ,
}
use heis_test.Prelude.Compare.{is_gt}
use heis_test.Gossip.Model.Version.Order.{
  Coherent, compare_tag, compare_tag-IsCompare, compare_version-compare_tag,
}
use heis_test.Gossip.Model.Key.{RequestKey, RequestKey-discrete}
use heis_test.Gossip.Model.Clock.{Clock}
use heis_test.Gossip.Model.Table.{RequestCell, RequestEntry, RequestTable, cell}
use heis_test.Gossip.Cluster.Merge.{
  is_newer, join, offer, join_all, merge_requests, cell-merge_requests,
}

-- The cells that may be in the network: their versions are coherent, and a version was written once.
pub record IsFamily (P : RequestCell → Type 0) : Type 0 where
  pub coherent : (a b : RequestCell) → P a → P b → Coherent a.version b.version
  pub written_once : (a b : RequestCell) → P a → P b → a.version ≡ b.version → a ≡ b

module _ (P : RequestCell → Type 0) (F : IsFamily P) where
  is_newer-compare_tag :
      (a b : RequestCell) → P a → P b → is_newer a b ≡ is_gt (compare_tag a.version b.version)
  is_newer-compare_tag a b pa pb =
      ap is_gt (compare_version-compare_tag a.version b.version (F.coherent a b pa pb))

  pub newer_asym : (a b : RequestCell) → P a → P b → is_newer a b ≡ true → is_newer b a ≡ false
  newer_asym a b pa pb h = ground (
    arith,
    is_newer-compare_tag a b pa pb,
    is_newer-compare_tag b a pb pa,
    compare_tag-IsCompare.flips a.version b.version,
  )

  pub newer_total :
      (a b : RequestCell) → P a → P b → is_newer a b ≡ false → is_newer b a ≡ false → a ≡ b
  newer_total a b pa pb h k = F.written_once a b pa pb (
      ground (
        arith,
        is_newer-compare_tag a b pa pb,
        is_newer-compare_tag b a pb pa,
        compare_tag-IsCompare.flips a.version b.version,
        compare_tag-IsCompare.eq_sound a.version b.version,
      ))

  pub newer_trans :
      (a b c : RequestCell)
      → P a
      → P b
      → P c
      → is_newer a b ≡ true
      → is_newer b c ≡ true
      → is_newer a c ≡ true
  newer_trans a b c pa pb pc h k = ground (
    arith,
    is_newer-compare_tag a b pa pb,
    is_newer-compare_tag b c pb pc,
    is_newer-compare_tag a c pa pc,
    compare_tag-IsCompare.flips a.version b.version,
    compare_tag-IsCompare.flips b.version c.version,
    compare_tag-IsCompare.flips a.version c.version,
    compare_tag-IsCompare.lt_trans c.version b.version a.version,
  )

  join-member : (a b : RequestCell) → P a → P b → P (join a b)
  unfolding join
  join-member a b pa pb = ground arith

  pub join_comm : (a b : RequestCell) → P a → P b → join a b ≡ join b a
  unfolding join
  join_comm a b pa pb =
      ground (arith, newer_asym a b pa pb, newer_asym b a pb pa, newer_total a b pa pb)

  -- The newest of three does not depend on their order.
  join_swap : (a b c : RequestCell) → P a → P b → P c → join (join a b) c ≡ join (join a c) b
  unfolding join
  join_swap a b c pa pb pc = ground (
    arith,
    newer_asym b c pb pc,
    newer_asym c b pc pb,
    newer_total b c pb pc,
    newer_trans c b a pc pb pa,
    newer_trans b c a pb pc pa,
  )

  abbrev Offers : List RequestEntry → Type 0
  Offers = All (λ e. P e.cell)

  step-member :
      (k : RequestKey) (c : RequestCell) (e : RequestEntry)
      → P c
      → P e.cell
      → P (ite (RequestKey-discrete e.key k) (join c e.cell) c)
  step-member k c e pc pe = elim (RequestKey-discrete e.key k) [
    | yes p ↦ rw (if_pos _ p) (join-member c e.cell pc pe)
    | no p ↦ rw (if_neg _ p) pc
  ]

  offer_swap :
      (k : RequestKey) (c : RequestCell) (a b : RequestEntry)
      → P c
      → P a.cell
      → P b.cell
      → offer k (offer k c a) b ≡ offer k (offer k c b) a
  offer_swap k c a b pc pa pb = ground (arith, join_swap c a.cell b.cell pc pa pb)

  join_all-Permᴰ :
      (k : RequestKey) {es fs : List RequestEntry}
      → Permᴰ es fs
      → (c : RequestCell) → P c
      → Offers es
      → join_all k c es ≡ join_all k c fs
  unfolding join_all
  join_all-Permᴰ k Permᴰ.nil c pc h = refl
  join_all-Permᴰ k (Permᴰ.cons {a = a} {b = b} {l₁ = es} {l₂ = fs} e d) c pc h =
      join_all-Permᴰ k d (offer k c a) (step-member k c a pc h.0) h.1
      ∙ ap (λ (x : RequestEntry). join_all k (offer k c x) fs) e
  join_all-Permᴰ k (Permᴰ.swap {a = a} {b = b} {l = es} e f) c pc h =
      ap (λ d. join_all k d es) (offer_swap k c a b pc h.0 h.1.0)
      ∙ (λ i. join_all k (offer k (offer k c (f i)) (e i)) es)
  join_all-Permᴰ k (Permᴰ.trans d d') c pc h =
      join_all-Permᴰ k d c pc h ∙ join_all-Permᴰ k d' c pc (All-Permᴰ (λ e. P e.cell) d h)

  -- Merging the same entries in another order makes the same cell for a key, whatever the clocks
  -- are, if the cell that the table has for the key and those of the entries belong to one family
  -- of cells with coherent versions and one cell for a version.
  pub merge_requests-Permᴰ :
      (t : RequestTable) (c d : Clock) (k : RequestKey) {es fs : List RequestEntry}
      → Permᴰ es fs
      → P (cell t k)
      → Offers es
      → cell (merge_requests t c es).0 k ≡ cell (merge_requests t d fs).0 k
  merge_requests-Permᴰ t c d k {es} {fs} perm p h =
      cell-merge_requests t c es k
      ∙ join_all-Permᴰ k perm (cell t k) p h
      ∙ sym (cell-merge_requests t d fs k)
