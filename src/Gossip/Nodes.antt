-- ===== src/Gossip/Nodes.antt =====
-- Concrete nodes for the theorems on the tracker, the entries and the assigner (internal/cluster,
-- internal/model, internal/assigner).
use heis_test.Prelude.{ℕ, ◌≡◌, ◌↔◌, refl, [], ◌∷◌, true, false, some, arith}
use heis_test.Prelude.Assoc
use heis_test.Prelude.Int.{ℤ, pos}
use heis_test.Gossip.Model.Kinds.{Direction, Behavior}
use heis_test.Gossip.Model.Key.{RequestKey, RequestKey-discrete, hall_key, cab_key}
use heis_test.Gossip.Model.Soft.{SoftState}
use heis_test.Gossip.Model.Table.{RequestCell, RequestTable, active, cell, entries_of}
use heis_test.Gossip.Model.Table.Lookup.{IsTable}
use heis_test.Gossip.Model.Table.Entries.{entries_of_ext}
use heis_test.Gossip.Cluster.Tracker.{Peer, PeerTracker, expire}
use heis_test.Gossip.Cluster.Tracker.Laws.{IsTracker, peer}
use heis_test.Gossip.Cluster.Tracker.Expiry.{IsFresh, IsStale, expire_iff}
use heis_test.Gossip.Assigner.{assign}
use heis_test.Gossip.Assigner.Best.{IsLowest, Bids}
use heis_test.Gossip.Assigner.Agreement.{assign-IsLowest, assign_agrees}
use mathlib.Core.List.{Memᴰ}

abbrev cell_of : ℕ → RequestCell
cell_of n = record { active = true; version = record { counter = n; writer_id = 1; boot_id = [] } }

abbrev up_call : RequestKey
up_call = hall_key (pos 1) Direction.up

abbrev cab_call : RequestKey
cab_call = cab_key 1 (pos 3)

abbrev table : RequestTable
table = (up_call, cell_of 3) ∷ (cab_call, cell_of 5) ∷ []

-- The same table, iterated in the other order.
abbrev other_order : RequestTable
other_order = (cab_call, cell_of 5) ∷ (up_call, cell_of 3) ∷ []

table-IsTable : IsTable table
unfolding Assoc.get?
table-IsTable = (ground arith, (refl, tt))

other_order-IsTable : IsTable other_order
unfolding Assoc.get?
other_order-IsTable = (ground arith, (refl, tt))

same_cells :
    (k : RequestKey)
    → Assoc.get? RequestKey-discrete k table ≡ Assoc.get? RequestKey-discrete k other_order
unfolding Assoc.get?
same_cells k = ground arith

entries_of_ext_example : entries_of false table ≡ entries_of false other_order
entries_of_ext_example =
    entries_of_ext false table other_order table-IsTable other_order-IsTable same_cells

abbrev car : ℕ → ℕ → SoftState
car id floor = record {
  id = id;
  boot_id = 4 ∷ [];
  floor = pos floor;
  direction = Direction.stop;
  behavior = Behavior.idle;
  door_open = false;
  obstruction = false;
}

active_call : active table up_call ≡ true
unfolding active cell Assoc.get?
active_call = ground arith

active_other : active other_order up_call ≡ true
unfolding active cell Assoc.get?
active_other = ground arith

assign-IsLowest_example :
    (b : ℤ × ℕ) × (Assoc.get? RequestKey-discrete up_call (assign table (car 1 3 ∷ car 2 0 ∷ []))
      ≡ some b.1)
    × IsLowest up_call b (car 1 3 ∷ car 2 0 ∷ [])
    × Bids up_call b (car 1 3 ∷ car 2 0 ∷ [])
assign-IsLowest_example =
    assign-IsLowest table (car 1 3) (car 2 0 ∷ []) up_call table-IsTable refl active_call

assign_agrees_example :
    Assoc.get? RequestKey-discrete up_call (assign table (car 1 3 ∷ car 2 0 ∷ []))
    ≡ Assoc.get? RequestKey-discrete up_call (assign other_order (car 2 0 ∷ car 1 3 ∷ []))
assign_agrees_example =
    assign_agrees table other_order (car 1 3) (car 2 0) (car 2 0 ∷ []) (car 1 3 ∷ []) up_call
      table-IsTable other_order-IsTable (rw active_call (rw active_other refl))
      (Memᴰ.tail (Memᴰ.head refl), (Memᴰ.head refl, tt))
      (Memᴰ.tail (Memᴰ.head refl), (Memᴰ.head refl, tt))

abbrev tracker : PeerTracker
tracker = record {
  timeout = 100;
  peers =
      (2, record { state = car 2 0; seen = 30 }) ∷ (3, record { state = car 3 1; seen = 90 }) ∷ [];
}

tracker-IsTracker : IsTracker tracker
unfolding Assoc.get?
tracker-IsTracker = (ground arith, (refl, tt))

abbrev seen_late : Peer
seen_late = record { state = car 3 1; seen = 90 }

expire_iff_example :
    ((peer 3 (expire 150 tracker).0 ≡ some seen_late)
      ↔ ((peer 3 tracker ≡ some seen_late) × IsFresh 100 150 seen_late))
    × (((expire 150 tracker).1 ≡ true)
        ↔ ((j : ℕ) × (q : Peer) × (peer j tracker ≡ some q) × IsStale 100 150 q))
expire_iff_example = expire_iff 150 3 seen_late tracker tracker-IsTracker
