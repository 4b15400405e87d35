-- ===== src/Gossip/System/Known.antt =====
-- The cells that were written in a system, each by one elevator, which gave its counter once
-- (internal/model/types.go).
use heis_test.Prelude.{ℕ, ◌≤◌, ◌≡◌, sym, ap, ◌∙◌, List, arith, [], ◌∷◌, ◌≢◌, Ordering}
use heis_test.Gossip.Model.Key.{RequestKey}
use heis_test.Gossip.Model.Version.Order.{BootsAscend, Coherent}
use heis_test.Prelude.Compare.{compare_bytes, compare_bytes-IsCompare}
use heis_test.Gossip.Model.Table.{RequestCell, zero_cell}
use heis_test.Gossip.Cluster.Writes.{History, IsWrite}
use heis_test.Gossip.Cluster.Convergence.{IsFamily}

-- The boot of each elevator, the log of each, and how far its clock is.
pub record Ledger : Type 0 where
  pub boots : ℕ → List ℕ
  pub logs : ℕ → History
  pub clocks : ℕ → ℕ

pub data IsKnown (l : Ledger) (k : RequestKey) (c : RequestCell) : Type 0 where
  unwritten : c ≡ zero_cell → IsKnown l k c
  written : (i : ℕ) → IsWrite i (l.boots i) (l.logs i) (l.clocks i) k c → IsKnown l k c

-- A later ledger: clocks go forward, and what a clock has passed stays as it was.
pub record IsLater (l m : Ledger) : Type 0 where
  pub boots : (i : ℕ) → m.boots i ≡ l.boots i
  pub clocks : (i : ℕ) → l.clocks i ≤ m.clocks i
  pub logs : (i n : ℕ) → n ≤ l.clocks i → m.logs i n ≡ l.logs i n

pub known_later :
    {l m : Ledger}
    → IsLater l m
    → (k : RequestKey) (c : RequestCell) → IsKnown l k c
    → IsKnown m k c
known_later h k c (unwritten z) = unwritten z
known_later h k c (written i w) = written i (record {
  writer = w.writer;
  booted = w.booted ∙ sym (h.boots i);
  le = omega (arith, w.le, h.clocks i);
  positive = w.positive;
  entry = h.logs i c.version.counter w.le ∙ w.entry;
})

pub known_below :
    (n : ℕ) (l : Ledger) (k : RequestKey) (c : RequestCell)
    → ((i : ℕ) → l.clocks i ≤ n)
    → IsKnown l k c
    → c.version.counter ≤ n
known_below n l k c h (unwritten z) = ground arith
known_below n l k c h (written i w) = omega (arith, w.le, h i)

none_below_nil : (xs : List ℕ) → compare_bytes xs [] ≢ Ordering.lt
unfolding compare_bytes
none_below_nil [] = cc
none_below_nil (x ∷ xs) = cc

-- An elevator has one boot.
one_boot :
    (l : Ledger) {k : RequestKey} {a b : RequestCell} (i j : ℕ)
    → IsWrite i (l.boots i) (l.logs i) (l.clocks i) k a
    → IsWrite j (l.boots j) (l.logs j) (l.clocks j) k b
    → a.version.writer_id ≡ b.version.writer_id
    → a.version.boot_id ≡ b.version.boot_id
one_boot l i j v w same = v.booted ∙ ap l.boots (sym v.writer ∙ same ∙ w.writer) ∙ sym w.booted

module _ (l : Ledger) (k : RequestKey) where
  known_ascend :
      (a b : RequestCell) → IsKnown l k a → IsKnown l k b → BootsAscend a.version b.version
  known_ascend a b (unwritten z) _ same lt = ground arith
  known_ascend a b (written i v) (unwritten z) same lt =
      absurd (ground (arith, none_below_nil a.version.boot_id))
  known_ascend a b (written i v) (written j w) same lt =
      absurd
        (ground (arith, one_boot l i j v w same, compare_bytes-IsCompare.self a.version.boot_id))

  known-Coherent :
      (a b : RequestCell) → IsKnown l k a → IsKnown l k b → Coherent a.version b.version
  known-Coherent a b h h' = record { forth = known_ascend a b h h'; back = known_ascend b a h' h }

  known_once : (a b : RequestCell) → IsKnown l k a → IsKnown l k b → a.version ≡ b.version → a ≡ b
  known_once a b (unwritten z) (unwritten z') e = z ∙ sym z'
  known_once a b (unwritten z) (written j w) e = absurd (ground (arith, w.positive))
  known_once a b (written i v) (unwritten z) e = absurd (ground (arith, v.positive))
  known_once a b (written i v) (written j w) e =
      ground (arith, v.writer, w.writer, v.entry, w.entry)

  -- The cells of a key are a family: merging them does not depend on the order.
  pub known-IsFamily : IsFamily (IsKnown l k)
  known-IsFamily = record { coherent = known-Coherent; written_once = known_once }
