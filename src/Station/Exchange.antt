-- ===== src/Station/Exchange.antt =====
-- main.go: two stations that hear each other's hall requests.
use heis_test.Prelude.{
  ◌≡◌, ◌≢◌, refl, sym, ap, ◌∙◌, ℕ, Bool, ◌||◌, Option, none, some, arith, Bool-cases, inl, inr,
  if_neg, if◌then◌else◌,
}
use heis_test.Prelude.Assoc
use heis_test.Station.Elevio.{num_floors}
use heis_test.Station.Elevator.{Requests}
use heis_test.Station.HallAssigner.{PeerId-discrete, HallRequests, assign}
use heis_test.Station.World.{
  Station, HallRequestMsg, light, apply_mine, reassign, is_master, reassign_if_master,
}
use heis_test.Station.Loop.{on_hall_msg, merge_hall, is_changed_from}

-- What a station broadcasts of the hall requests.
abbrev pub hall_message : Station → HallRequestMsg
hall_message s = record { sender_id = s.id; hall_requests = s.hall_requests }

apply_mine_keeps :
    (o : Option Requests) (s : Station) → (apply_mine o s).hall_requests ≡ s.hall_requests
apply_mine_keeps none s = refl
apply_mine_keeps (some m) s = refl

if_master_keeps : (s : Station) → (reassign_if_master s).hall_requests ≡ s.hall_requests
unfolding reassign_if_master reassign light
if_master_keeps s = elim (Bool-cases (is_master s)) [
  | inl t ↦
      rw t (
        apply_mine_keeps (Assoc.get? PeerId-discrete s.id (assign s.hall_requests s.peer_states)) s)
  | inr f ↦ rw f refl
]

on_hall_msg_merges :
    (m : HallRequestMsg) (s : Station)
    → m.sender_id ≢ s.id
    → (on_hall_msg m s).hall_requests ≡ merge_hall m.hall_requests s.hall_requests
unfolding on_hall_msg
on_hall_msg_merges m s n =
    let changed = is_changed_from m.hall_requests s.hall_requests num_floors 0 in
    let s₁ = record s { hall_requests = merge_hall m.hall_requests s.hall_requests } in
    ap (λ x. x.hall_requests)
      (if_neg (PeerId-discrete m.sender_id s.id) n s
        (if changed then reassign_if_master s₁ else s₁))
    ∙ elim (Bool-cases changed) [ inl t ↦ rw t (if_master_keeps s₁) | inr f ↦ rw f refl ]

or_comm : (a b : Bool) → (a || b) ≡ (b || a)
or_comm a b = ground arith

merge_hall_comm : (a b : HallRequests) (f : ℕ) → merge_hall a b f ≡ merge_hall b a f
unfolding merge_hall
merge_hall_comm a b f i = record {
  up = or_comm (b f).up (a f).up i;
  down = or_comm (b f).down (a f).down i;
}

-- Two stations with different IDs that have each handled the hall message of the other, as it was
-- before, hold the same hall requests at every floor.
pub hall_exchange_agrees :
    (s t : Station) (f : ℕ)
    → s.id ≢ t.id
    → (on_hall_msg (hall_message t) s).hall_requests f
      ≡ (on_hall_msg (hall_message s) t).hall_requests f
hall_exchange_agrees s t f n =
    ap (λ h. h f) (on_hall_msg_merges (hall_message t) s (λ e. n (sym e)))
    ∙ merge_hall_comm t.hall_requests s.hall_requests f
    ∙ sym (ap (λ h. h f) (on_hall_msg_merges (hall_message s) t n))
