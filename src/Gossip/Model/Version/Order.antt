-- ===== src/Gossip/Model/Version/Order.antt =====
-- What `CompareVersion` is an order on: all versions whose boots agree with their counters.
use heis_test.Prelude.{
  ℕ, ◌≤◌, ◌<◌, ◌≡◌, ◌≢◌, refl, List, [], ◌∷◌, Bool, true, false, arith, compare, Ordering,
}
use heis_test.Prelude.Compare.{
  IsCompare, flip, lex, on-IsCompare, lex-IsCompare, compare-IsCompare, compare_bytes,
  compare_bytes-IsCompare,
}
use heis_test.Gossip.Model.Version.{Version, eq_bytes, compare_version}

abbrev is_eq : Ordering → Bool
is_eq Ordering.eq = true
is_eq _ = false

pub eq_bytes-compare_bytes : (xs ys : List ℕ) → eq_bytes xs ys ≡ is_eq (compare_bytes xs ys)
unfolding eq_bytes compare_bytes
eq_bytes-compare_bytes [] [] = refl
eq_bytes-compare_bytes [] (y ∷ ys) = refl
eq_bytes-compare_bytes (x ∷ xs) [] = refl
eq_bytes-compare_bytes (x ∷ xs) (y ∷ ys) = ground (arith, eq_bytes-compare_bytes xs ys)

-- The counter decides, then the writer, then the boot.
abbrev pub tag : Version → ℕ × (ℕ × List ℕ)
tag v = (v.counter, (v.writer_id, v.boot_id))

abbrev pub compare_tag : Version → Version → Ordering
compare_tag a b = lex compare (lex compare compare_bytes) (tag a) (tag b)

tag-injective : (a b : Version) → tag a ≡ tag b → a ≡ b
tag-injective a b h = ground arith

pub compare_tag-IsCompare : IsCompare compare_tag
compare_tag-IsCompare =
    on-IsCompare tag tag-injective
      (lex-IsCompare compare-IsCompare (lex-IsCompare compare-IsCompare compare_bytes-IsCompare))

-- Of two versions by one writer, the later boot has no smaller counter.
abbrev pub BootsAscend : Version → Version → Type 0
BootsAscend a b =
    a.writer_id ≡ b.writer_id
    → compare_bytes a.boot_id b.boot_id ≡ Ordering.lt
    → a.counter ≤ b.counter

pub record Coherent (a b : Version) : Type 0 where
  pub forth : BootsAscend a b
  pub back : BootsAscend b a

-- On two coherent versions `CompareVersion` is the order by counter, then writer, then boot.
pub compare_version-compare_tag :
    (a b : Version) → Coherent a b → compare_version a b ≡ compare_tag a b
unfolding compare_version
compare_version-compare_tag a b h = ground (
  arith,
  h.forth,
  h.back,
  eq_bytes-compare_bytes a.boot_id b.boot_id,
  compare_bytes-IsCompare.flips a.boot_id b.boot_id,
)

-- Whatever the versions, exchanging them flips the outcome.
pub compare_version-flips : (a b : Version) → compare_version b a ≡ flip (compare_version a b)
unfolding compare_version
compare_version-flips a b = ground (
  arith,
  eq_bytes-compare_bytes a.boot_id b.boot_id,
  eq_bytes-compare_bytes b.boot_id a.boot_id,
  compare_bytes-IsCompare.flips a.boot_id b.boot_id,
)

pub compare_version-eq : (a b : Version) → compare_version a b ≡ Ordering.eq → a ≡ b
unfolding compare_version
compare_version-eq a b h = ground (
  arith,
  eq_bytes-compare_bytes a.boot_id b.boot_id,
  compare_bytes-IsCompare.eq_sound a.boot_id b.boot_id,
)

pub compare_version_self : (a : Version) → compare_version a a ≡ Ordering.eq
unfolding compare_version
compare_version_self a =
    ground
      (arith, eq_bytes-compare_bytes a.boot_id a.boot_id, compare_bytes-IsCompare.self a.boot_id)

-- Among three versions that are coherent in pairs, `CompareVersion` is transitive: if the first is
-- older than the second and the second than the third, the first is older than the third.
pub compare_version-lt_trans :
    (a b c : Version)
    → Coherent a b
    → Coherent b c
    → Coherent a c
    → compare_version a b ≡ Ordering.lt
    → compare_version b c ≡ Ordering.lt
    → compare_version a c ≡ Ordering.lt
compare_version-lt_trans a b c hab hbc hac p q = ground (
  arith,
  compare_version-compare_tag a b hab,
  compare_version-compare_tag b c hbc,
  compare_version-compare_tag a c hac,
  compare_tag-IsCompare.lt_trans a b c,
)

-- Where a writer comes back with a later boot and a counter below that of another writer's version,
-- which is below the counter of its earlier boot, each of the three versions is newer than the
-- next, around a circle.
pub compare_version_circle :
    (old other new : Version)
    → old.writer_id ≡ new.writer_id
    → other.writer_id ≢ old.writer_id
    → compare_bytes old.boot_id new.boot_id ≡ Ordering.lt
    → new.counter < other.counter
    → other.counter < old.counter
    → (compare_version old other ≡ Ordering.gt)
      × (compare_version other new ≡ Ordering.gt)
      × (compare_version new old ≡ Ordering.gt)
unfolding compare_version
compare_version_circle old other new w d boot p q = ground (
  arith,
  eq_bytes-compare_bytes new.boot_id old.boot_id,
  compare_bytes-IsCompare.flips old.boot_id new.boot_id,
)
