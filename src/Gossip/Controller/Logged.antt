-- ===== src/Gossip/Controller/Logged.antt =====
-- What one event writes (internal/controller/controller.go): each cell of the table that an event
-- leaves behind was known before, or is a write of the controller's own with a counter that its
-- clock had not reached.
pub mod Steps
use heis_test.Prelude.{
  ℕ, ◌+◌, ◌^◌, ◌≤◌, ◌<◌, ◌≡◌, refl, sym, ap, ◌∙◌, List, [], ◌∷◌, Bool, true, false, ite, ◌⊎◌, inl,
  inr, arith, Bool-cases, All, ℕ_discrete, if_pos, if_neg, subst, ◌||◌,
}
use heis_test.Prelude.Int.{ℤ}
use heis_test.Gossip.Model.Kinds.{Direction, eq_direction, is_stuck}
use heis_test.Gossip.Model.Version.{Version}
use heis_test.Gossip.Model.Key.{RequestKey, RequestKey-discrete, cab_key}
use heis_test.Gossip.Model.Clock.{Clock, next, observe, seed, u64}
use heis_test.Gossip.Model.Table.{RequestCell, RequestEntry, RequestTable, cell, active, set}
use heis_test.Gossip.Model.Table.Lookup.{IsTable, cell-set, set-IsTable, max_counter-le}
use heis_test.Gossip.Model.Soft.{SoftState}
use heis_test.Gossip.Cluster.Merge.{
  is_newer, join, join_all, offer, merge_from, merge_entry, merge_requests, cell-merge_requests,
  merge_requests_clock,
}
use heis_test.Gossip.Cluster.Writes.{
  History, write, IsWrite, IsWrite-le, merge_requests_member, merge_requests_below,
  merge_requests_writer,
}
use heis_test.Gossip.Controller.State.{Controller, sync, eq_bool, set_request, clear_floor}
use heis_test.Gossip.Controller.Motion.{
  halt, swing, door_dir_of, open_door, rest, depart, plan, turn_door, close_door,
}
use heis_test.Gossip.Controller.Handlers.{
  observe_peer, pass_floor, recover, get_stuck, enable_buttons, seed_clock_from_observed,
}
use heis_test.Gossip.Controller.Cases.{
  plan_cases, apply_remote_cases, handle_button_cases, handle_floor_cases, handle_obstruction_cases,
  handle_tick_cases,
}
use heis_test.Gossip.Controller.Events.{
  Event, incoming, button, floor, obstruction, ticked, started, handle,
}

-- The cell that `set` writes.
abbrev fresh_cell : Bool → Clock → RequestCell
fresh_cell on c = record { active = on; version = (next c).1 }

-- The cells of a table and a clock, against a log with a bound on the counters: each cell is known
-- by `Q`, or a write of the log past `lo`.
module _ (Q : RequestKey → RequestCell → Type 0) (w : History) (lo id : ℕ) (boot : List ℕ) where
  pub record IsLogged (n : ℕ) (t : RequestTable) (c : Clock) : Type 0 where
    pub log : History
    pub same : (m : ℕ) → m ≤ lo → log m ≡ w m
    pub above : lo ≤ c.value
    pub below : c.value ≤ n
    pub writer : c.writer ≡ id
    pub booted : c.boot ≡ boot
    pub seen : (k : RequestKey) → (cell t k).version.counter ≤ c.value
    pub cells :
        (k : RequestKey)
        → Q k (cell t k)
          ⊎ (IsWrite id boot log c.value k (cell t k) × (lo < (cell t k).version.counter))
    pub table : IsTable t

  abbrev pub Logged : ℕ → Controller → Type 0
  Logged n c = IsLogged n c.reqs c.clock

  pub IsLogged-le :
      {n m : ℕ} {t : RequestTable} {c : Clock} → n ≤ m → IsLogged n t c → IsLogged m t c
  IsLogged-le l h = record {
    log = h.log;
    same = h.same;
    above = h.above;
    below = omega (arith, h.below);
    writer = h.writer;
    booted = h.booted;
    seen = h.seen;
    cells = h.cells;
    table = h.table;
  }

  after_set :
      (n : ℕ) (k : RequestKey) (on : Bool) (t : RequestTable) (c : Clock)
      → n + 1 < 2 ^ 64
      → (h : IsLogged n t c) (j : RequestKey)
      → let v = u64 (c.value + 1) in
        let x = cell (set t k (fresh_cell on c)) j in
        Q j x ⊎ (IsWrite id boot (write h.log v (k, on)) v j x × (lo < x.version.counter))
  unfolding next
  after_set n k on t c fits h j =
      rw (cell-set t k j (fresh_cell on c))
        (elim (RequestKey-discrete k j)
          as (λ d.
            let x = ite d (fresh_cell on c) (cell t j) in
            Q j x
            ⊎ (IsWrite id boot (write h.log (u64 (c.value + 1)) (k, on)) (u64 (c.value + 1)) j x
                × (lo < x.version.counter))) [
                  | yes p ↦ inr (
                    record {
                      writer = h.writer;
                      booted = h.booted;
                      le = omega arith;
                      positive = omega (arith, h.below);
                      entry = ground arith;
                    },
                    omega (arith, h.below, h.above),
                  )
                  | no p ↦ elim (h.cells j) [
                    | inl q ↦ inl q
                    | inr (x, past) ↦ inr (
                      record {
                        writer = x.writer;
                        booted = x.booted;
                        le = omega (arith, x.le, h.below);
                        positive = x.positive;
                        entry = ground (arith, x.le, h.below, x.entry);
                      },
                      past,
                    )
                  ]
                ])

  set_request-IsLogged :
      (n : ℕ) (k : RequestKey) (on : Bool) (c : Controller)
      → n + 1 < 2 ^ 64
      → Logged n c
      → Logged (n + 1) (set_request k on c)
  unfolding set_request next
  set_request-IsLogged n k on c fits h = elim (Bool-cases (eq_bool (active c.reqs k) on)) [
    | inl t ↦ rw t (IsLogged-le (omega arith) h)
    | inr f ↦ rw f (record {
      log = write h.log (u64 (c.clock.value + 1)) (k, on);
      same = λ m l. ground (arith, h.same m l, h.above, h.below);
      above = ground (arith, h.above, h.below);
      below = ground (arith, h.below);
      writer = h.writer;
      booted = h.booted;
      seen = λ j. ground (arith, cell-set c.reqs k j (fresh_cell on c.clock), h.seen j, h.below);
      cells = λ j. after_set n k on c.reqs c.clock fits h j;
      table = set-IsTable c.reqs k _ h.table;
    })
  ]

-- From a state on, with other cells known: those that the table has there.
pub IsLogged-rebase :
    (Q R : RequestKey → RequestCell → Type 0) {w : History} {lo id : ℕ} {boot : List ℕ} {n : ℕ}
    {t : RequestTable} {c : Clock}
    → (h : IsLogged Q w lo id boot n t c) → ((k : RequestKey) → R k (cell t k))
    → IsLogged R h.log c.value id boot n t c
IsLogged-rebase Q R h known = record {
  log = h.log;
  same = λ m l. refl;
  above = omega arith;
  below = h.below;
  writer = h.writer;
  booted = h.booted;
  seen = h.seen;
  cells = λ k. inl (known k);
  table = h.table;
}
