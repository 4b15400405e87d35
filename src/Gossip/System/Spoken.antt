-- ===== src/Gossip/System/Spoken.antt =====
-- What a process knows and says: every cell of its table, of its channel and of the snapshot that it
-- sends (cmd/elevator/main.go, internal/cluster/node.go).
use heis_test.Prelude.{
  ℕ, ◌≡◌, refl, ap, subst, List, [], ◌∷◌, ◌++◌, Bool, true, false, ltb, length, arith, All, All-map,
  Bool-cases, inl, inr, if_neg, if◌then◌else◌, none, some,
}
use heis_test.Prelude.Assoc
use heis_test.Prelude.Sort
use heis_test.Gossip.Model.Key.{RequestKey, RequestKey-discrete}
use heis_test.Gossip.Model.Soft.{Snapshot}
use heis_test.Gossip.Model.Table.{
  RequestCell, RequestTable, or_zero, cell, collect, compare_entry, entries_of, entries,
}
use heis_test.Gossip.Model.Table.Lookup.{IsTable}
use heis_test.Gossip.Cluster.Node.{Read, failed, garbled, decoded, receive, queue_size}
use heis_test.Gossip.Controller.Events.{Event, handle}
use heis_test.Gossip.Process.{
  Process, publish, Action, Input, read, incoming, window_over, input, event_of, act, take_from,
  take_incoming, begin, take_input,
}

-- A snapshot of which each entry satisfies `P`.
abbrev pub Says : (RequestKey → RequestCell → Type 0) → Snapshot → Type 0
Says P snap = All (λ e. P e.key e.cell) snap.requests

pub record IsSpoken (P : RequestKey → RequestCell → Type 0) (p : Process) : Type 0 where
  pub cells : (k : RequestKey) → P k (cell p.controller.reqs k)
  pub heard : All (Says P) p.node.incoming
  pub said : Says P p.node.last

-- What a read brings in.
abbrev pub Reads : (RequestKey → RequestCell → Type 0) → Action → Type 0
Reads P (read (decoded snap)) = Says P snap
Reads P _ = Unit

pub Says-map :
    {P Q : RequestKey → RequestCell → Type 0}
    → ((k : RequestKey) (c : RequestCell) → P k c → Q k c)
    → (snap : Snapshot) → Says P snap
    → Says Q snap
Says-map f snap h = All-map (λ e. f e.key e.cell) snap.requests h

pub IsSpoken-map :
    {P Q : RequestKey → RequestCell → Type 0}
    → ((k : RequestKey) (c : RequestCell) → P k c → Q k c)
    → (p : Process) → IsSpoken P p
    → IsSpoken Q p
IsSpoken-map f p h = record {
  cells = λ k. f k (cell p.controller.reqs k) (h.cells k);
  heard = All-map (Says-map f) p.node.incoming h.heard;
  said = Says-map f p.node.last h.said;
}

module _ (P : RequestKey → RequestCell → Type 0) where
  tail_holds :
      (j : RequestKey) (c : RequestCell) (t : RequestTable)
      → Assoc.get? RequestKey-discrete j t ≡ none
      → (k : RequestKey) (d : RequestCell) → Assoc.get? RequestKey-discrete k t ≡ some d
      → Assoc.get? RequestKey-discrete k ((j, c) ∷ t) ≡ some d
  unfolding Assoc.get?
  tail_holds j c t n k d e = elim (RequestKey-discrete j k) [
    | yes p ↦ absurd (ground (arith, ap (λ i. Assoc.get? RequestKey-discrete i t) p))
    | no p ↦ rw (if_neg _ p) e
  ]

  collect-Says :
      (t : RequestTable)
      → IsTable t
      → ((k : RequestKey) (c : RequestCell) → Assoc.get? RequestKey-discrete k t ≡ some c → P k c)
      → All (λ e. P e.key e.cell) (collect false t)
  unfolding collect Assoc.get?
  collect-Says [] d h = tt
  collect-Says ((j, c) ∷ t) d h =
      (h j c (ground arith), collect-Says t d.1 (λ k x e. h k x (tail_holds j c t d.0 k x e)))

  -- A snapshot of a table says what the table holds.
  pub entries-Says :
      (t : RequestTable)
      → IsTable t
      → ((k : RequestKey) → P k (cell t k))
      → All (λ e. P e.key e.cell) (entries t)
  unfolding entries entries_of cell
  entries-Says t d h =
      Sort.sort-All compare_entry (λ e. P e.key e.cell) (collect false t)
        (collect-Says t d (λ k c e. subst (P k) (ap or_zero e) (h k)))

-- A rule for a test.
if_cases {ℓ κ} :
    {A : Type κ} (R : A → Type ℓ) (b : Bool) {x y : A} → R x → R y → R (if b then x else y)
if_cases R true hx hy = hx
if_cases R false hx hy = hy

-- The ways that a process goes on, as a rule: what holds of each outcome holds after the action.
module _ {ℓ} (R : Process → Type ℓ) (now : ℕ) (p : Process) where
  read_cases :
      (r : Read)
      → R p
      → ((snap : Snapshot)
          → Action.read r ≡ Action.read (decoded snap)
          → R (record p { node = record (p.node) { incoming = p.node.incoming ++ snap ∷ [] } }))
      → R (act now (read r) p)
  unfolding act receive
  read_cases failed idle heard = idle
  read_cases garbled idle heard = idle
  read_cases (decoded snap) idle heard =
      elim (Bool-cases (ltb (length p.node.incoming) queue_size)) [
        | inl e ↦ rw e (heard snap refl)
        | inr e ↦ rw e idle
      ]

  take_cases :
      (xs : List Snapshot)
      → p.node.incoming ≡ xs
      → R p
      → ((snap : Snapshot) (rest : List Snapshot)
          → p.node.incoming ≡ snap ∷ rest
          → R (
              publish (record p {
                controller = handle now (Event.incoming snap) p.controller;
                node = record (p.node) { incoming = rest };
              })))
      → R (take_from now p xs)
  unfolding take_from handle
  take_cases [] e idle taken = idle
  take_cases (snap ∷ rest) e idle taken = taken snap rest e

  pub act_cases :
      (a : Action)
      → R p
      → ((snap : Snapshot)
          → a ≡ read (decoded snap)
          → R (record p { node = record (p.node) { incoming = p.node.incoming ++ snap ∷ [] } }))
      → ((snap : Snapshot) (rest : List Snapshot)
          → p.node.incoming ≡ snap ∷ rest
          → R (
              publish (record p {
                controller = handle now (Event.incoming snap) p.controller;
                node = record (p.node) { incoming = rest };
              })))
      → R (
          publish (record p {
            controller = handle now Event.ticked (handle now Event.started p.controller);
            running = true;
          }))
      → ((i : Input) → R (publish (record p { controller = handle now (event_of i) p.controller })))
      → R (act now a p)
  unfolding act take_incoming begin take_input handle
  act_cases (read r) idle heard taken begun put = read_cases r idle heard
  act_cases incoming idle heard taken begun put = take_cases p.node.incoming refl idle taken
  act_cases window_over idle heard taken begun put = if_cases R p.running idle begun
  act_cases (input i) idle heard taken begun put = if_cases R p.running (put i) idle
