-- ===== src/Gossip/Examples.antt =====
-- Concrete nodes for the theorems on the model and the cluster (internal/model, internal/cluster,
-- internal/assigner).
use heis_test.Prelude.{ℕ, ◌≡◌, ◌≢◌, refl, List, [], ◌∷◌, true, false, arith, Ordering, Permᴰ}
use heis_test.Prelude.Assoc
use heis_test.Prelude.Compare.{compare_bytes}
use heis_test.Prelude.Int.{pos}
use heis_test.Gossip.Model.Kinds.{Direction}
use heis_test.Gossip.Model.Key.{RequestKey, hall_key}
use heis_test.Gossip.Model.Version.{Version, compare_version, eq_bytes}
use heis_test.Gossip.Model.Version.Order.{Coherent, compare_version-lt_trans}
use heis_test.Gossip.Model.Clock.{Clock}
use heis_test.Gossip.Model.Table.{RequestCell, RequestEntry, RequestTable, zero_cell, cell, entries}
use heis_test.Gossip.Model.Table.Lookup.{IsTable}
use heis_test.Gossip.Cluster.Merge.{merge_requests}
use heis_test.Gossip.Cluster.Convergence.{IsFamily, merge_requests-Permᴰ}
use heis_test.Gossip.Cluster.Exchange.{exchange_agrees}
use heis_test.Gossip.Cluster.Divergence.{at, merge_order_matters}

abbrev version : ℕ → ℕ → List ℕ → Version
version n w boot = record { counter = n; writer_id = w; boot_id = boot }

abbrev pressed : ℕ → ℕ → RequestCell
pressed n w = record { active = true; version = version n w [] }

abbrev call : RequestKey
call = hall_key (pos 1) Direction.up

abbrev older : RequestTable
older = (call, pressed 3 1) ∷ []

abbrev newer : RequestTable
newer = (call, pressed 4 2) ∷ []

abbrev start_clock : Clock
start_clock = record { value = 0; writer = 1; boot = [] }

-- The cells of active requests, written in one boot.
abbrev InFirstBoot : RequestCell → Type 0
InFirstBoot c = (c.version.boot_id ≡ []) × (c.active ≡ true)

first_boot-Coherent : (a b : Version) → a.boot_id ≡ [] → b.boot_id ≡ [] → Coherent a b
unfolding compare_bytes
first_boot-Coherent a b p q = record { forth = λ w l. ground arith; back = λ w l. ground arith }

first_boot-IsFamily : IsFamily InFirstBoot
first_boot-IsFamily = record {
  coherent = λ a b p q. first_boot-Coherent a.version b.version p.0 q.0;
  written_once = λ a b p q e. ground arith;
}

one_row-IsTable : (k : RequestKey) (c : RequestCell) → IsTable ((k, c) ∷ [])
unfolding Assoc.get?
one_row-IsTable k c = (refl, tt)

cell-one_row : (k : RequestKey) (c : RequestCell) → cell ((k, c) ∷ []) k ≡ c
unfolding cell Assoc.get?
cell-one_row k c = ground arith

older_in : InFirstBoot (cell older call)
older_in = rw (cell-one_row call (pressed 3 1)) (refl, refl)

newer_in : InFirstBoot (cell newer call)
newer_in = rw (cell-one_row call (pressed 4 2)) (refl, refl)

exchange_agrees_example :
    cell (merge_requests older start_clock (entries newer)).0 call
    ≡ cell (merge_requests newer start_clock (entries older)).0 call
exchange_agrees_example =
    exchange_agrees InFirstBoot first_boot-IsFamily older newer start_clock start_clock call
      (one_row-IsTable call (pressed 3 1)) (one_row-IsTable call (pressed 4 2)) older_in newer_in

abbrev heard : List RequestEntry
heard = at call (pressed 4 2) ∷ at call (pressed 6 1) ∷ []

abbrev heard_late : List RequestEntry
heard_late = at call (pressed 6 1) ∷ at call (pressed 4 2) ∷ []

merge_requests-Permᴰ_example :
    cell (merge_requests older start_clock heard).0 call
    ≡ cell (merge_requests older start_clock heard_late).0 call
merge_requests-Permᴰ_example =
    merge_requests-Permᴰ InFirstBoot first_boot-IsFamily older start_clock start_clock call
      (Permᴰ.swap refl refl) older_in ((refl, refl), ((refl, refl), tt))

-- Elevator 1 restarts and counts from 1 again, after elevator 2 wrote its version 4.
abbrev before_restart : RequestCell
before_restart = record { active = true; version = version 7 1 (1 ∷ []) }

abbrev between : RequestCell
between = record { active = true; version = version 4 2 (5 ∷ []) }

abbrev after_restart : RequestCell
after_restart = record { active = false; version = version 1 1 (2 ∷ []) }

restarted : compare_bytes (1 ∷ []) (2 ∷ []) ≡ Ordering.lt
unfolding compare_bytes
restarted = refl

no_cell : cell [] call ≡ zero_cell
unfolding cell Assoc.get?
no_cell = refl

merge_order_matters_example :
    (cell
        (merge_requests [] start_clock
          (at call before_restart ∷ at call between ∷ at call after_restart ∷ [])).0
        call
      ≡ after_restart)
    × (cell
          (merge_requests [] start_clock
            (at call after_restart ∷ at call between ∷ at call before_restart ∷ [])).0
          call
        ≡ before_restart)
    × (before_restart ≢ after_restart)
merge_order_matters_example =
    merge_order_matters before_restart between after_restart refl (ground arith) restarted
      (omega arith) (omega arith) (omega arith) [] start_clock call no_cell

below : compare_version (version 3 1 []) (version 4 2 []) ≡ Ordering.lt
unfolding compare_version eq_bytes compare_bytes
below = refl

above : compare_version (version 4 2 []) (version 6 1 []) ≡ Ordering.lt
unfolding compare_version eq_bytes compare_bytes
above = refl

compare_version-lt_trans_example : compare_version (version 3 1 []) (version 6 1 []) ≡ Ordering.lt
compare_version-lt_trans_example =
    compare_version-lt_trans (version 3 1 []) (version 4 2 []) (version 6 1 [])
      (first_boot-Coherent (version 3 1 []) (version 4 2 []) refl refl)
      (first_boot-Coherent (version 4 2 []) (version 6 1 []) refl refl)
      (first_boot-Coherent (version 3 1 []) (version 6 1 []) refl refl) below above
