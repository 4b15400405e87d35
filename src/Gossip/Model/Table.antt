-- ===== src/Gossip/Model/Table.antt =====
-- internal/model/types.go: the request table, a map from keys to cells.
pub mod Lookup
pub mod Entries
use heis_test.Prelude.{
  ℕ, List, [], ◌∷◌, Bool, true, false, not, ◌&&◌, Option, none, some, ltb, if◌then◌else◌, Ordering,
}
use heis_test.Prelude.Assoc
use heis_test.Prelude.Sort
use heis_test.Gossip.Model.Version.{Version}
use heis_test.Gossip.Model.Key.{RequestKey, RequestKey-discrete, compare_key}

pub record RequestCell : Type 0 where
  pub active : Bool
  pub version : Version

pub record RequestEntry : Type 0 where
  pub key : RequestKey
  pub cell : RequestCell

abbrev pub RequestTable : Type 0
RequestTable = List (RequestKey × RequestCell)

-- `NewRequestTable`.
abbrev pub new_request_table : RequestTable
new_request_table = []

-- The zero value of a cell, which a missing key reads as.
abbrev pub zero_cell : RequestCell
zero_cell = record { active = false; version = record { counter = 0; writer_id = 0; boot_id = [] } }

abbrev pub or_zero : Option RequestCell → RequestCell
or_zero none = zero_cell
or_zero (some c) = c

-- `Cell`.
unfoldable pub cell : RequestTable → RequestKey → RequestCell
cell t key = or_zero (Assoc.get? RequestKey-discrete key t)

-- `Active`.
unfoldable pub active : RequestTable → RequestKey → Bool
active t key = (cell t key).active

-- `Set`.
unfoldable pub set : RequestTable → RequestKey → RequestCell → RequestTable
set t key c = Assoc.put RequestKey-discrete key c t

-- `if a < b { a = b }`.
abbrev pub larger : ℕ → ℕ → ℕ
larger a b = if ltb a b then b else a

-- `MaxCounter`.
unfoldable pub max_counter_from : ℕ → RequestTable → ℕ
max_counter_from max [] = max
max_counter_from max ((_, c) ∷ t) = max_counter_from (larger max c.version.counter) t

unfoldable pub max_counter : RequestTable → ℕ
max_counter t = max_counter_from 0 t

-- The loop of `entries`, before the sort.
unfoldable pub collect : Bool → RequestTable → List RequestEntry
collect active_only [] = []
collect active_only ((k, c) ∷ t) =
    let rest = collect active_only t in
    if active_only && not c.active then rest else record { key = k; cell = c } ∷ rest

abbrev pub compare_entry : RequestEntry → RequestEntry → Ordering
compare_entry a b = compare_key a.key b.key

-- `entries`.
unfoldable pub entries_of : Bool → RequestTable → List RequestEntry
entries_of active_only t = Sort.sort compare_entry (collect active_only t)

-- `Entries` and `ActiveEntries`.
unfoldable pub entries : RequestTable → List RequestEntry
entries t = entries_of false t

unfoldable pub active_entries : RequestTable → List RequestEntry
active_entries t = entries_of true t
