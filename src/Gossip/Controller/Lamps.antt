-- ===== src/Gossip/Controller/Lamps.antt =====
-- The button lamps show the request table (`sync` of internal/controller/controller.go).
use heis_test.Prelude.{
  ℕ, zero, suc, ◌+◌, ◌<◌, ◌≤◌, ◌≡◌, ◌≢◌, refl, ap, ◌∙◌, List, true, some, arith, ◌==◌, Bool-cases,
  inl, inr,
}
use heis_test.Prelude.Int.{ℤ, pos, pos_part}
use heis_test.Gossip.Model.Kinds.{Direction, Button}
use heis_test.Gossip.Model.Key.{RequestKey, hall_key, cab_key}
use heis_test.Gossip.Model.Table.{active}
use heis_test.Gossip.Driver.{Command, button_lamp}
use heis_test.Gossip.Controller.State.{Config, Controller, sync_floor, sync_from, sync, new}
use heis_test.Gossip.Controller.Motion.{open_door, rest, depart, plan, turn_door, close_door}
use heis_test.Gossip.Controller.Handlers.{
  valid, get_stuck, enable_buttons, seed_clock_from_observed,
}
use heis_test.Gossip.Controller.Cases.{
  plan_cases, apply_remote_cases, handle_button_cases, handle_floor_cases, handle_obstruction_cases,
  handle_tick_cases,
}
use heis_test.Gossip.Controller.Events.{
  Event, incoming, button, floor, obstruction, ticked, started, handle, Reach, fresh, after,
}

-- The request that a button stands for.
abbrev pub request_key : ℕ → Button → ℤ → RequestKey
request_key id Button.hall_up f = hall_key f Direction.up
request_key id Button.hall_down f = hall_key f Direction.down
request_key id Button.cab f = cab_key id f

-- Every button that the elevator has shows whether its request is active.
abbrev pub IsLit : Controller → Type 0
IsLit c =
    (b : Button) (f : ℕ)
    → valid c b (pos f) ≡ true
    → button_lamp b (pos f) c.dev ≡ some (active c.reqs (request_key c.cfg.elevator_id b (pos f)))

sync_floor_other :
    (c : Controller) (b : Button) (f g : ℕ) (dev : List Command)
    → f ≢ g
    → button_lamp b (pos f) (sync_floor c (pos g) dev) ≡ button_lamp b (pos f) dev
unfolding sync_floor
sync_floor_other c b f g dev h = ground arith

sync_floor_here :
    (c : Controller) (b : Button) (f : ℕ) (dev : List Command)
    → valid c b (pos f) ≡ true
    → button_lamp b (pos f) (sync_floor c (pos f) dev)
      ≡ some (active c.reqs (request_key c.cfg.elevator_id b (pos f)))
unfolding sync_floor valid
sync_floor_here c Button.hall_up f dev h = ground arith
sync_floor_here c Button.hall_down f dev h = ground arith
sync_floor_here c Button.cab f dev h = ground arith

sync_from_below :
    (c : Controller) (b : Button) (f n g : ℕ) (dev : List Command)
    → f < g
    → button_lamp b (pos f) (sync_from c n g dev) ≡ button_lamp b (pos f) dev
unfolding sync_from
sync_from_below c b f zero g dev h = refl
sync_from_below c b f (suc n) g dev h =
    sync_from_below c b f n (suc g) (sync_floor c (pos g) dev) (omega arith)
    ∙ sync_floor_other c b f g dev (omega arith)

sync_from_lit :
    (c : Controller) (b : Button) (f n g : ℕ) (dev : List Command)
    → g ≤ f
    → f < g + n
    → valid c b (pos f) ≡ true
    → button_lamp b (pos f) (sync_from c n g dev)
      ≡ some (active c.reqs (request_key c.cfg.elevator_id b (pos f)))
unfolding sync_from
sync_from_lit c b f zero g dev lo hi v = absurd (omega arith)
sync_from_lit c b f (suc n) g dev lo hi v = elim (Bool-cases (f == g)) [
  | inl e ↦
      let q : g ≡ f = ground arith in
      sync_from_below c b f n (suc g) (sync_floor c (pos g) dev) (omega arith)
      ∙ ap (λ x. button_lamp b (pos f) (sync_floor c (pos x) dev)) q
      ∙ sync_floor_here c b f dev v
  | inr e ↦ sync_from_lit c b f n (suc g) (sync_floor c (pos g) dev) (ground arith) (ground arith) v
]

valid_bound :
    (c : Controller) (b : Button) (f : ℕ) → valid c b (pos f) ≡ true → f < pos_part c.cfg.floors
unfolding valid
valid_bound c b f v = ground arith

pub sync-IsLit : (c : Controller) → IsLit (sync c)
unfolding sync valid
sync-IsLit c b f v =
    sync_from_lit c b f (pos_part c.cfg.floors) 0 _ (omega arith)
      (omega (arith, valid_bound c b f v)) v

plan-IsLit : (now : ℕ) (c : Controller) → IsLit (plan now c)
unfolding open_door rest depart
plan-IsLit now c =
    plan_cases IsLit now c (λ _. sync-IsLit c) (λ _. sync-IsLit _) (λ _. sync-IsLit _)
      (λ _ d _. sync-IsLit _)

-- Every event leaves the lamps showing the table.
pub handle-IsLit : (now : ℕ) (e : Event) (c : Controller) → IsLit c → IsLit (handle now e c)
unfolding handle open_door turn_door close_door get_stuck enable_buttons seed_clock_from_observed
    valid
handle-IsLit now (incoming snap) c h =
    apply_remote_cases IsLit now snap c (plan-IsLit now _) (sync-IsLit _)
handle-IsLit now (button e) c h = handle_button_cases IsLit now e c h (λ k. plan-IsLit now _)
handle-IsLit now (floor f) c h =
    handle_floor_cases IsLit now f c h (λ d. sync-IsLit _) (sync-IsLit _) (sync-IsLit _)
handle-IsLit now (obstruction on) c h =
    handle_obstruction_cases IsLit now on c (sync-IsLit _) (λ due d _. sync-IsLit _)
      (λ due. plan-IsLit now _)
handle-IsLit now ticked c h =
    handle_tick_cases IsLit now c (plan-IsLit now _) (λ m. sync-IsLit _) (sync-IsLit _)
      (λ due d _. sync-IsLit _) (λ due. plan-IsLit now _)
handle-IsLit now started c h = h

-- In every controller that events can lead to from a fresh one, with any configuration, the lamp of
-- each button that the elevator has shows whether the button's request is active in the table.
pub Reach-IsLit : {cfg : Config} {boot : ℕ} {c : Controller} → Reach cfg boot c → IsLit c
unfolding new
Reach-IsLit {cfg} {boot} fresh = sync-IsLit _
Reach-IsLit (after {c = c} now e r) = handle-IsLit now e c (Reach-IsLit r)
