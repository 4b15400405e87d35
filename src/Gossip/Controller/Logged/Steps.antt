-- ===== src/Gossip/Controller/Logged/Steps.antt =====
-- What one event writes, through the operations of the controller (internal/controller/controller.go).
use heis_test.Prelude.{
  ℕ, ◌+◌, ◌^◌, ◌≤◌, ◌<◌, ◌≡◌, sym, ◌∙◌, List, true, false, inl, inr, arith, Bool-cases, All, ◌==◌,
  subst,
}
use heis_test.Gossip.Model.Kinds.{Direction, eq_direction, is_stuck}
use heis_test.Gossip.Model.Key.{RequestKey, cab_key}
use heis_test.Gossip.Model.Clock.{Clock, seed}
use heis_test.Gossip.Model.Table.{cell, RequestCell, RequestEntry, RequestTable, max_counter}
use heis_test.Gossip.Model.Table.Lookup.{max_counter-le}
use heis_test.Gossip.Model.Soft.{SoftState, Snapshot}
use heis_test.Gossip.Cluster.Merge.{merge_requests, merge_requests-IsTable, merge_requests_clock}
use heis_test.Gossip.Cluster.Writes.{
  History, merge_requests_member, merge_requests_below, merge_requests_writer,
}
use heis_test.Gossip.Controller.State.{Controller, sync, clear_floor}
use heis_test.Gossip.Controller.Motion.{
  halt, swing, door_dir_of, open_door, rest, depart, plan, turn_door, close_door,
}
use heis_test.Gossip.Controller.Handlers.{
  observe_peer, pass_floor, recover, get_stuck, enable_buttons, seed_clock_from_observed,
}
use heis_test.Gossip.Controller.Cases.{
  plan_cases, apply_remote_cases, handle_button_cases, handle_floor_cases, handle_obstruction_cases,
  handle_tick_cases,
}
use heis_test.Gossip.Controller.Logged.{IsLogged, Logged, IsLogged-le, set_request-IsLogged}
use heis_test.Gossip.Controller.Events.{
  Event, incoming, button, floor, obstruction, ticked, started, handle,
}

-- What a merge of the entries that an event brings in leaves is known, and their counters are up to
-- `n`.
abbrev pub Brought : (RequestKey → RequestCell → Type 0) → ℕ → Controller → Event → Type 0
Brought Q n c (incoming snap) =
    ((k : RequestKey) → Q k (cell (merge_requests c.reqs c.clock snap.requests).0 k))
    × All (λ e. e.cell.version.counter ≤ n) snap.requests
Brought Q n c _ = Unit

-- A clock is not moved by what it has passed.
seed_le : (n : ℕ) (c : Clock) → n ≤ c.value → seed n c ≡ c
unfolding seed
seed_le n c l = ground arith

module _ (Q : RequestKey → RequestCell → Type 0) (w : History) (lo id : ℕ) (boot : List ℕ) where
  abbrev Keeps : ℕ → Controller → Type 0
  Keeps n c = Logged Q w lo id boot n c

  clear_floor-IsLogged :
      (n : ℕ) (d : Direction) (c : Controller)
      → n + 2 < 2 ^ 64
      → Keeps n c
      → Keeps (n + 2) (clear_floor d c)
  unfolding clear_floor
  clear_floor-IsLogged n d c fits h =
      let h₁ =
        set_request-IsLogged Q w lo id boot n (cab_key c.cfg.elevator_id c.car.floor) false c
          (omega arith) h in
      elim (Bool-cases (eq_direction d Direction.stop)) [
        | inl t ↦ rw t (IsLogged-le Q w lo id boot (omega arith) h₁)
        | inr f ↦ rw f (
            IsLogged-le Q w lo id boot (omega arith)
              (set_request-IsLogged Q w lo id boot (n + 1) _ false _ (omega arith) h₁))
      ]

  open_door-IsLogged :
      (now n : ℕ) (d : Direction) (c : Controller)
      → n + 2 < 2 ^ 64
      → Keeps n c
      → Keeps (n + 2) (open_door now d c)
  unfolding open_door swing halt sync
  open_door-IsLogged now n d c fits h = clear_floor-IsLogged n (door_dir_of d c) _ fits h

  plan-IsLogged :
      (now n : ℕ) (c : Controller) → n + 2 < 2 ^ 64 → Keeps n c → Keeps (n + 2) (plan now c)
  unfolding rest depart sync
  plan-IsLogged now n c fits h =
      let h' = IsLogged-le Q w lo id boot {m = n + 2} (omega arith) h in
      plan_cases (Keeps (n + 2)) now c (λ _. h')
        (λ _. open_door-IsLogged now n c.travel_dir c fits h) (λ _. h') (λ _ d _. h')

  turn_door-IsLogged :
      (now n : ℕ) (d : Direction) (c : Controller)
      → n + 2 < 2 ^ 64
      → Keeps n c
      → Keeps (n + 2) (turn_door now d c)
  unfolding turn_door sync
  turn_door-IsLogged now n d c fits h = clear_floor-IsLogged n d (record c { door_dir = d }) fits h

  close_door-IsLogged :
      (now n : ℕ) (c : Controller) → n + 2 < 2 ^ 64 → Keeps n c → Keeps (n + 2) (close_door now c)
  unfolding close_door
  close_door-IsLogged now n c fits h = plan-IsLogged now n _ fits h

  recover-IsLogged : (n : ℕ) (c : Controller) → Keeps n c → Keeps n (recover c)
  unfolding recover
  recover-IsLogged n c h = elim (Bool-cases (is_stuck c.car.behavior)) [
    | inl t ↦ rw t h
    | inr f ↦ rw f h
  ]

  observe_peer-IsLogged :
      (now n : ℕ) (s : SoftState) (c : Controller) → Keeps n c → Keeps n (observe_peer now s c).0
  unfolding observe_peer
  observe_peer-IsLogged now n s c h = elim (Bool-cases (s.id == c.cfg.elevator_id)) [
    | inl t ↦ rw t h
    | inr f ↦ rw f h
  ]

  pub merge_requests-IsLogged :
      (n : ℕ) (t : RequestTable) (c : Clock) (es : List RequestEntry)
      → ((k : RequestKey) → Q k (cell (merge_requests t c es).0 k))
      → All (λ e. e.cell.version.counter ≤ n) es
      → IsLogged Q w lo id boot n t c
      → IsLogged Q w lo id boot n (merge_requests t c es).0 (merge_requests t c es).1
  merge_requests-IsLogged n t c es known small h =
      let up = merge_requests_clock t c es in
      record {
        log = h.log;
        same = h.same;
        above = omega (arith, h.above, up.0);
        below = merge_requests_below n t c es h.below small;
        writer = (merge_requests_writer t c es).0 ∙ h.writer;
        booted = (merge_requests_writer t c es).1 ∙ h.booted;
        seen = λ k.
            merge_requests_member (λ j x. x.version.counter ≤ (merge_requests t c es).1.value) t c
              es k (omega (arith, h.seen k, up.0)) up.1;
        cells = λ k. inl (known k);
        table = merge_requests-IsTable t c es h.table;
      }

  -- A snapshot, from where its entries are merged.
  pub incoming-IsLogged :
      (now n : ℕ) (snap : Snapshot) (c : Controller)
      → n + 3 < 2 ^ 64
      → (let m = merge_requests c.reqs c.clock snap.requests in IsLogged Q w lo id boot n m.0 m.1)
      → Keeps (n + 3) (handle now (incoming snap) c)
  unfolding handle sync
  incoming-IsLogged now n snap c fits h =
      let m = merge_requests c.reqs c.clock snap.requests in
      let h₁ = observe_peer-IsLogged now n snap.soft (record c { reqs = m.0; clock = m.1 }) h in
      apply_remote_cases (Keeps (n + 3)) now snap c
        (IsLogged-le Q w lo id boot (omega arith) (plan-IsLogged now n _ (omega arith) h₁))
        (IsLogged-le Q w lo id boot (omega arith) h₁)

  -- Any event, where the entries that it brings are known and their counters within the bound.
  pub handle-IsLogged :
      (now n : ℕ) (e : Event) (c : Controller)
      → n + 3 < 2 ^ 64
      → Brought Q n c e
      → Keeps n c
      → Keeps (n + 3) (handle now e c)
  unfolding handle enable_buttons seed_clock_from_observed sync pass_floor get_stuck
  handle-IsLogged now n (incoming snap) c fits (known, small) h =
      incoming-IsLogged now n snap c fits
        (merge_requests-IsLogged n c.reqs c.clock snap.requests known small h)
  handle-IsLogged now n (button e) c fits _ h =
      handle_button_cases (Keeps (n + 3)) now e c (IsLogged-le Q w lo id boot (omega arith) h) (λ k.
        IsLogged-le Q w lo id boot (omega arith) (
          plan-IsLogged now (n + 1) _ (omega arith)
            (set_request-IsLogged Q w lo id boot n k true c (omega arith) h)))
  handle-IsLogged now n (floor f) c fits _ h =
      let h' = IsLogged-le Q w lo id boot {m = n + 3} (omega arith) h in
      handle_floor_cases (Keeps (n + 3)) now f c h'
        (λ d.
          IsLogged-le Q w lo id boot (omega arith)
            (open_door-IsLogged now n d (pass_floor now f c) (omega arith) h))
        (recover-IsLogged (n + 3) (pass_floor now f c) h') h'
  handle-IsLogged now n (obstruction on) c fits _ h =
      handle_obstruction_cases (Keeps (n + 3)) now on c (IsLogged-le Q w lo id boot (omega arith) h)
        (λ due d _.
          IsLogged-le Q w lo id boot (omega arith) (turn_door-IsLogged now n d _ (omega arith) h))
        (λ due.
          IsLogged-le Q w lo id boot (omega arith) (close_door-IsLogged now n _ (omega arith) h))
  handle-IsLogged now n ticked c fits _ h =
      let h' = IsLogged-le Q w lo id boot {m = n + 3} (omega arith) h in
      handle_tick_cases (Keeps (n + 3)) now c
        (IsLogged-le Q w lo id boot (omega arith) (plan-IsLogged now n _ (omega arith) h)) (λ m. h')
        h'
        (λ due d _.
          IsLogged-le Q w lo id boot (omega arith) (turn_door-IsLogged now n d _ (omega arith) h))
        (λ due.
          IsLogged-le Q w lo id boot (omega arith) (close_door-IsLogged now n _ (omega arith) h))
  handle-IsLogged now n started c fits _ h = IsLogged-le Q w lo id boot (omega arith) (
      subst (IsLogged Q w lo id boot n c.reqs)
        (sym (seed_le (max_counter c.reqs) c.clock (max_counter-le _ c.reqs h.table h.seen))) h)
