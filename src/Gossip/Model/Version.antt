-- ===== src/Gossip/Model/Version.antt =====
-- internal/model/types.go: versions of request cells and `CompareVersion`.
pub mod Order
use heis_test.Prelude.{
  ℕ, List, Bool, true, false, not, ◌&&◌, ◌==◌, if◌then◌else◌, compare, Ordering, [], ◌∷◌,
}
use heis_test.Prelude.Compare.{then_by, compare_bytes}

-- A boot ID is a text, here the list of its bytes.
pub record Version : Type 0 where
  pub counter : ℕ
  pub writer_id : ℕ
  pub boot_id : List ℕ

-- `==` on texts.
unfoldable pub eq_bytes : List ℕ → List ℕ → Bool
eq_bytes [] [] = true
eq_bytes [] (y ∷ ys) = false
eq_bytes (x ∷ xs) [] = false
eq_bytes (x ∷ xs) (y ∷ ys) = x == y && eq_bytes xs ys

-- `CompareVersion`.
unfoldable pub compare_version : Version → Version → Ordering
compare_version a b =
    if a.writer_id == b.writer_id && not (eq_bytes a.boot_id b.boot_id)
    then compare_bytes a.boot_id b.boot_id
    else then_by (compare a.counter b.counter)
        (then_by (compare a.writer_id b.writer_id) (compare_bytes a.boot_id b.boot_id))
