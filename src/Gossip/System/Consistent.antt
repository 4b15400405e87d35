-- ===== src/Gossip/System/Consistent.antt =====
-- What every state of the elevators together satisfies, as long as no clock has wrapped
-- (cmd/elevator/main.go, internal/cluster, internal/model).
use heis_test.Prelude.{
  ℕ, ◌≤◌, ◌≡◌, refl, sym, subst, ◌∙◌, List, [], ◌∷◌, ◌++◌, arith, All, All-member, All-append, ite,
  ℕ_discrete, if_pos,
}
use heis_test.Gossip.Model.Key.{RequestKey}
use heis_test.Gossip.Model.Soft.{Snapshot}
use heis_test.Gossip.Model.Table.{RequestCell, cell}
use heis_test.Gossip.Model.Table.Lookup.{IsTable}
use heis_test.Gossip.Cluster.Writes.{History}
use heis_test.Gossip.Cluster.Node.{Node, failed, garbled, decoded, send}
use heis_test.Gossip.Controller.State.{new}
use heis_test.Gossip.Process.{Process, Action, read, incoming, window_over, input}
use heis_test.Gossip.System.{System, update, Carried, on_wire}
use heis_test.Gossip.System.Known.{Ledger, IsKnown, IsLater, known_later}
use heis_test.Gossip.System.Spoken.{Says, Reads, IsSpoken, IsSpoken-map}

-- One elevator, against what was written anywhere.
pub record IsRunning (l : Ledger) (i : ℕ) (p : Process) : Type 0 where
  pub writer : p.controller.clock.writer ≡ i
  pub booted : p.controller.clock.boot ≡ l.boots i
  pub seen :
      (k : RequestKey) → (cell p.controller.reqs k).version.counter ≤ p.controller.clock.value
  pub table : IsTable p.controller.reqs
  pub spoken : IsSpoken (IsKnown l) p

abbrev pub ledger_of : (ℕ → List ℕ) → (ℕ → History) → System → Ledger
ledger_of boots logs s = record {
  boots = boots;
  logs = logs;
  clocks = λ i. (s.processes i).controller.clock.value;
}

-- All of them, and all that was sent; `n` bounds the clocks.
pub record IsConsistent (boots : ℕ → List ℕ) (n : ℕ) (s : System) : Type 0 where
  pub logs : ℕ → History
  pub small : (i : ℕ) → (s.processes i).controller.clock.value ≤ n
  pub running : (i : ℕ) → IsRunning (ledger_of boots logs s) i (s.processes i)
  pub packets : All (Says (IsKnown (ledger_of boots logs s))) s.packets

pub IsRunning-later :
    {l m : Ledger} {i : ℕ} {p : Process} → IsLater l m → IsRunning l i p → IsRunning m i p
IsRunning-later {i} {p} h r = record {
  writer = r.writer;
  booted = r.booted ∙ sym (h.boots i);
  seen = r.seen;
  table = r.table;
  spoken = IsSpoken-map (known_later h) p r.spoken;
}

pub Carried-Reads :
    (P : RequestKey → RequestCell → Type 0) (packets : List Snapshot) (a : Action)
    → All (Says P) packets
    → Carried packets a
    → Reads P a
Carried-Reads P packets (read failed) h c = tt
Carried-Reads P packets (read garbled) h c = tt
Carried-Reads P packets (read (decoded snap)) h c = All-member (Says P) c h
Carried-Reads P packets incoming h c = tt
Carried-Reads P packets window_over h c = tt
Carried-Reads P packets (input i) h c = tt

send-Says :
    (P : RequestKey → RequestCell → Type 0) (addrs : List ℕ) (n : Node)
    → Says P n.last
    → All (Says P) (on_wire (send addrs n))
unfolding send on_wire
send-Says P [] n h = tt
send-Says P (a ∷ addrs) n h = (h, send-Says P addrs n h)

pub update-same {ℓ} : {A : Type ℓ} (f : ℕ → A) (i : ℕ) (a : A) → update f i a i ≡ a
update-same f i a = if_pos (ℕ_discrete i i) refl a (f i)

pub update-cases {ℓ κ} :
    {A : Type ℓ} (P : ℕ → A → Type κ) (f : ℕ → A) (i : ℕ) (a : A)
    → P i a
    → ((j : ℕ) → P j (f j))
    → (j : ℕ) → P j (update f i a j)
update-cases P f i a new old j = elim (ℕ_discrete i j) as (λ d. P j (ite d a (f j))) [
  | yes e ↦ subst (λ j. P j a) e new
  | no e ↦ old j
]

pub sends-IsConsistent :
    (boots : ℕ → List ℕ) (n : ℕ) (s : System) (i : ℕ) (addrs : List ℕ)
    → IsConsistent boots n s
    → IsConsistent boots n
        (record s { packets = on_wire (send addrs (s.processes i).node) ++ s.packets })
sends-IsConsistent boots n s i addrs h = record {
  logs = h.logs;
  small = h.small;
  running = λ j. record {
    writer = (h.running j).writer;
    booted = (h.running j).booted;
    seen = (h.running j).seen;
    table = (h.running j).table;
    spoken = (h.running j).spoken;
  };
  packets =
      All-append _ (on_wire (send addrs (s.processes i).node)) s.packets
        (send-Says _ addrs (s.processes i).node (h.running i).spoken.said) h.packets;
}

pub IsConsistent-le :
    {boots : ℕ → List ℕ} {n m : ℕ} {s : System}
    → n ≤ m
    → IsConsistent boots n s
    → IsConsistent boots m s
IsConsistent-le l h = record {
  logs = h.logs;
  small = λ i. omega (arith, h.small i);
  running = h.running;
  packets = h.packets;
}
