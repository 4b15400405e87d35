-- ===== src/Gossip/System/Acts.antt =====
-- A step of one elevator, with what it leaves of the whole system (cmd/elevator/main.go).
use heis_test.Prelude.{
  false, ℕ, ◌+◌, ◌^◌, ◌<◌, ◌≤◌, ◌≡◌, refl, sym, ap, subst, List, arith, All-map, inl, inr, ◌⊎◌,
}
use heis_test.Gossip.Model.Key.{RequestKey}
use heis_test.Gossip.Model.Soft.{Snapshot}
use heis_test.Gossip.Model.Table.{RequestCell, cell}
use heis_test.Gossip.Cluster.Merge.{is_newer, cell-merge_requests}
use heis_test.Gossip.Cluster.Same.{newer_irrefl, join_all_stays}
use heis_test.Gossip.Model.Version.Order.{compare_version-compare_tag}
use heis_test.Gossip.Controller.Logged.Steps.{Brought}
use heis_test.Gossip.Controller.Events
use heis_test.Gossip.Cluster.Writes.{merge_requests_member, IsWrite, IsWrite-le}
use heis_test.Gossip.Controller.Logged.{Logged}
use heis_test.Gossip.Process.{Process, Action, act}
use heis_test.Gossip.System.{System, update, Carried}
use heis_test.Gossip.System.Known.{
  known-IsFamily, Ledger, IsKnown, written, IsLater, known_later, known_below,
}
use heis_test.Gossip.System.Spoken.{Says, IsSpoken-map, Says-map}
use heis_test.Gossip.System.Acted.{HasActed, act-HasActed}
use heis_test.Gossip.System.Consistent.{
  IsRunning, ledger_of, IsConsistent, IsRunning-later, Carried-Reads, update-same, update-cases,
}

module _ (boots : ℕ → List ℕ) (n : ℕ) (s : System) (fits : n + 6 < 2 ^ 64)
    (h : IsConsistent boots n s) where
  abbrev pub ledger : Ledger
  ledger = ledger_of boots h.logs s

  all_small : (k : RequestKey) (c : RequestCell) → IsKnown ledger k c → c.version.counter ≤ n
  all_small k c = known_below n ledger k c h.small

  -- What is known and not older than what elevator `i` has.
  abbrev pub Newer : ℕ → RequestKey → RequestCell → Type 0
  Newer i k x = IsKnown ledger k x × (is_newer (cell (s.processes i).controller.reqs k) x ≡ false)

  has : (i : ℕ) (k : RequestKey) → IsKnown ledger k (cell (s.processes i).controller.reqs k)
  has i = (h.running i).spoken.cells

  pub not_newer_self :
      (i : ℕ) (k : RequestKey)
      → is_newer (cell (s.processes i).controller.reqs k) (cell (s.processes i).controller.reqs k)
        ≡ false
  not_newer_self i k = newer_irrefl (IsKnown ledger k) (known-IsFamily ledger k) k _ (has i k)

  pub logged :
      (i : ℕ)
      → Logged
          (Newer i)
          (h.logs i)
          (s.processes i).controller.clock.value
          i
          (boots i)
          n
          (s.processes i).controller
  logged i = record {
    log = h.logs i;
    same = λ m l. refl;
    above = omega arith;
    below = h.small i;
    writer = (h.running i).writer;
    booted = (h.running i).booted;
    seen = (h.running i).seen;
    cells = λ k. inl (has i k, not_newer_self i k);
    table = (h.running i).table;
  }

  -- A merge of what was said leaves what is known, and nothing older.
  pub merged :
      (i : ℕ) (snap : Snapshot)
      → Says (IsKnown ledger) snap
      → Brought (Newer i) n (s.processes i).controller (Events.incoming snap)
  merged i snap said = (
    λ k. (
      merge_requests_member (IsKnown ledger) _ _ snap.requests k (has i k) said,
      subst (λ x. is_newer (cell (s.processes i).controller.reqs k) x ≡ false)
          (sym (cell-merge_requests _ _ snap.requests k))
          (join_all_stays (IsKnown ledger k) (known-IsFamily ledger k) k _ _ snap.requests (has i k)
            (has i k)
            (All-map (λ e q same. subst (λ j. IsKnown ledger j e.cell) same q) snap.requests said)
            (not_newer_self i k)),
    ),
    All-map (λ e q. all_small e.key e.cell q) snap.requests said,
  )

  module _ (i now : ℕ) (a : Action) (c : Carried s.packets a) where
    abbrev pub next_process : Process
    next_process = act now a (s.processes i)

    abbrev pub next_system : System
    next_system = record s { processes = update s.processes i next_process }

    pub step :
        HasActed
          (IsKnown ledger)
          (Newer i)
          (λ k x q. q.0)
          (h.logs i)
          (s.processes i).controller.clock.value
          i
          (boots i)
          (n + 6)
          next_process
    step =
        act-HasActed (IsKnown ledger) (Newer i) (λ k x q. q.0) (h.logs i) _ i (boots i) now n a
          (s.processes i) fits (logged i) (h.running i).spoken
          (Carried-Reads (IsKnown ledger) s.packets a h.packets c) (merged i)

    abbrev pub next_ledger : Ledger
    next_ledger = ledger_of boots (update h.logs i step.logged.log) next_system

    is_later : IsLater ledger next_ledger
    is_later = record {
      boots = λ j. refl;
      clocks =
          update-cases (λ j p. (s.processes j).controller.clock.value ≤ p.controller.clock.value)
            s.processes i next_process step.logged.above (λ j. omega arith);
      logs =
          update-cases
            (λ j w. (m : ℕ) → m ≤ (s.processes j).controller.clock.value → w m ≡ h.logs j m) h.logs
            i step.logged.log step.logged.same (λ j m l. refl);
    }

    known_next :
        (k : RequestKey) (x : RequestCell)
        → IsKnown ledger k x
          ⊎ IsWrite i (boots i) step.logged.log next_process.controller.clock.value k x
        → IsKnown next_ledger k x
    known_next k x (inl q) = known_later is_later k x q
    known_next k x (inr w) = written i (
        subst (λ l. IsWrite i (boots i) l (next_ledger.clocks i) k x)
          (sym (update-same h.logs i step.logged.log))
          (IsWrite-le
            (omega
              (arith, ap (λ p. p.controller.clock.value) (update-same s.processes i next_process)))
            w))

    pub acts-IsConsistent : IsConsistent boots (n + 6) next_system
    acts-IsConsistent = record {
      logs = next_ledger.logs;
      small =
          update-cases (λ j p. p.controller.clock.value ≤ n + 6) s.processes i next_process
            step.logged.below (λ j. omega (arith, h.small j));
      running =
          update-cases (IsRunning next_ledger) s.processes i next_process
            (record {
              writer = step.logged.writer;
              booted = step.logged.booted;
              seen = step.logged.seen;
              table = step.logged.table;
              spoken = IsSpoken-map known_next next_process step.spoken;
            })
            (λ j. IsRunning-later is_later (h.running j));
      packets = All-map (Says-map (known_later is_later)) s.packets h.packets;
    }

    -- What the elevator has afterwards is known.
    pub known_after : (k : RequestKey) → IsKnown next_ledger k (cell next_process.controller.reqs k)
    known_after k = known_next k _ (step.spoken.cells k)

    -- What was known is not newer than a cell of the key with a larger counter.
    pub larger_newer :
        (k : RequestKey) (old x : RequestCell)
        → IsKnown ledger k old
        → IsKnown next_ledger k x
        → old.version.counter < x.version.counter
        → is_newer old x ≡ false
    larger_newer k old x q q' past =
        let both = known-IsFamily next_ledger k in
        ground (
          arith,
          compare_version-compare_tag old.version x.version
              (both.coherent old x (known_later is_later k old q) q'),
        )

    newer_here :
        (k : RequestKey)
        → is_newer (cell (s.processes i).controller.reqs k) (cell next_process.controller.reqs k)
          ≡ false
    newer_here k = elim (step.logged.cells k) [
      | inl q ↦ q.1
      | inr (x, past) ↦
          larger_newer k _ _ (has i k) (known_after k) (omega (arith, (h.running i).seen k, past))
    ]

    -- No elevator's cell gets older.
    pub acts_newer :
        (j : ℕ) (k : RequestKey)
        → is_newer
            (cell (s.processes j).controller.reqs k)
            (cell (next_system.processes j).controller.reqs k)
          ≡ false
    acts_newer j k =
        update-cases
          (λ j p.
            is_newer (cell (s.processes j).controller.reqs k) (cell p.controller.reqs k) ≡ false)
          s.processes i next_process (newer_here k) (λ j. not_newer_self j k) j
