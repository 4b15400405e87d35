-- ===== src/Gossip/Cluster/Divergence.antt =====
-- Where versions are not coherent, the order of arrival decides (internal/model/types.go and
-- internal/cluster/merge.go): `CompareVersion` is not an order then.
use heis_test.Prelude.{
  ◌≡◌, ◌≢◌, refl, List, [], ◌∷◌, true, false, ◌<◌, arith, Ordering, ap, ◌∙◌, ℕ, ◌⊎◌, inl, inr,
}
use heis_test.Prelude.Compare.{compare_bytes}
use heis_test.Gossip.Model.Version.{compare_version, eq_bytes}
use heis_test.Gossip.Model.Version.Order.{compare_version-flips, compare_version_circle}
use heis_test.Gossip.Model.Key.{RequestKey}
use heis_test.Gossip.Model.Clock.{Clock}
use heis_test.Gossip.Model.Table.{RequestCell, RequestEntry, RequestTable, zero_cell, cell}
use heis_test.Gossip.Cluster.Merge.{is_newer, join, join_all, merge_requests, cell-merge_requests}

from_empty :
    (xs : List ℕ)
    → ((eq_bytes xs [] ≡ true) × (compare_bytes xs [] ≡ Ordering.eq))
      ⊎ ((eq_bytes xs [] ≡ false) × (compare_bytes xs [] ≡ Ordering.gt))
unfolding compare_bytes eq_bytes
from_empty [] = inl (refl, refl)
from_empty (x ∷ xs) = inr (refl, refl)

newer_than_zero : (c : RequestCell) → 0 < c.version.counter → is_newer c zero_cell ≡ true
unfolding compare_version
newer_than_zero c h = ground (arith, from_empty c.version.boot_id)

abbrev pub at : RequestKey → RequestCell → RequestEntry
at k c = record { key = k; cell = c }

module _ (old other new : RequestCell) (same : old.version.writer_id ≡ new.version.writer_id)
    (differs : other.version.writer_id ≢ old.version.writer_id)
    (reboot : compare_bytes old.version.boot_id new.version.boot_id ≡ Ordering.lt)
    (positive : 0 < new.version.counter) (lower : new.version.counter < other.version.counter)
    (higher : other.version.counter < old.version.counter) where
  circle :
      (is_newer old other ≡ true)
      × (is_newer other new ≡ true)
      × (is_newer new old ≡ true)
      × (is_newer other old ≡ false)
      × (is_newer new other ≡ false)
      × (is_newer old new ≡ false)
  circle =
      let c =
        compare_version_circle old.version other.version new.version same differs reboot lower
          higher in
      ground (
        arith,
        c,
        compare_version-flips old.version other.version,
        compare_version-flips other.version new.version,
        compare_version-flips new.version old.version,
      )

  -- Where a writer starts again with a later boot and a counter below that of another writer's
  -- cell, which is below the counter of its earlier boot, the order of arrival decides: merged into
  -- a table without the key, the three cells leave the writer's new cell in one order and its old
  -- one in the other, and these differ.
  pub merge_order_matters :
      (t : RequestTable) (c : Clock) (k : RequestKey)
      → cell t k ≡ zero_cell
      → (cell (merge_requests t c (at k old ∷ at k other ∷ at k new ∷ [])).0 k ≡ new)
        × (cell (merge_requests t c (at k new ∷ at k other ∷ at k old ∷ [])).0 k ≡ old)
        × (old ≢ new)
  unfolding join join_all
  merge_order_matters t c k missing =
      let o = circle in
      let order₁ = at k old ∷ at k other ∷ at k new ∷ [] in
      let order₂ = at k new ∷ at k other ∷ at k old ∷ [] in
      (
        cell-merge_requests t c order₁ k
            ∙ ap (λ x. join_all k x order₁) missing
            ∙ ground (arith, o, newer_than_zero old),
        cell-merge_requests t c order₂ k
            ∙ ap (λ x. join_all k x order₂) missing
            ∙ ground (arith, o, newer_than_zero new),
        λ e. ground arith,
      )
