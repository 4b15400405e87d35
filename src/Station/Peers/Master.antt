-- ===== src/Station/Peers/Master.antt =====
-- The master that a station takes from the updates of its receiver (network/peers/peers.go, main.go).
use heis_test.Prelude.{
  ℕ, ◌-◌, ◌≡◌, ◌≢◌, refl, sym, ap, ◌∙◌, List, [], ◌∷◌, Option, none, some, ltb, Bool-cases, inl,
  inr, arith, All, if◌then◌else◌,
}
use heis_test.Prelude.Assoc
use heis_test.Prelude.Sort
use heis_test.Prelude.Strict.{Unrepeated, sort_ext, member-Permᴰ}
use heis_test.Prelude.Compare.{compare_bytes, compare_bytes-IsCompare}
use mathlib.Core.List.{Memᴰ}
use heis_test.Station.HallAssigner.{PeerId, PeerId-discrete, assign}
use heis_test.Station.Elevator.{Requests}
use heis_test.Station.World.{
  Station, apply_mine, first_or, master_id, reassign, reassign_if_master, is_master, light,
}
use heis_test.Station.Loop.{delete_all, on_peer_update}
use heis_test.Station.Peers.{
  PeerUpdate, LastSeen, peer_timeout, ids, heartbeat, sweep, check_timeout, listen, check, Round,
  round, receive_from, receive,
}
use heis_test.Station.Peers.Current.{told, receive-told}

-- What a round of the timeout makes of the time that a peer was heard last.
abbrev pub fresh_enough : ℕ → Option ℕ → Option ℕ
fresh_enough now none = none
fresh_enough now (some t) = if ltb peer_timeout (now - t) then none else some t

sweep-absent :
    (now : ℕ) (id : PeerId) (seen : LastSeen)
    → Assoc.get? PeerId-discrete id seen ≡ none
    → Assoc.get? PeerId-discrete id (sweep now seen).0 ≡ none
unfolding sweep Assoc.get?
sweep-absent now id [] h = refl
sweep-absent now id ((j, t) ∷ seen) h = ground (arith, sweep-absent now id seen)

pub get?-sweep :
    (now : ℕ) (id : PeerId) (seen : LastSeen)
    → Assoc.Distinct PeerId-discrete seen
    → Assoc.get? PeerId-discrete id (sweep now seen).0
      ≡ fresh_enough now (Assoc.get? PeerId-discrete id seen)
unfolding sweep Assoc.get?
get?-sweep now id [] d = refl
get?-sweep now id ((j, t) ∷ seen) d =
    ground (arith, get?-sweep now id seen d.1, sweep-absent now j seen d.0)

sweep-Distinct :
    (now : ℕ) (seen : LastSeen)
    → Assoc.Distinct PeerId-discrete seen
    → Assoc.Distinct PeerId-discrete (sweep now seen).0
unfolding sweep
sweep-Distinct now [] d = d
sweep-Distinct now ((j, t) ∷ seen) d = elim (Bool-cases (ltb peer_timeout (now - t))) [
  | inl e ↦ rw e (sweep-Distinct now seen d.1)
  | inr e ↦ rw e (sweep-absent now j seen d.0, sweep-Distinct now seen d.1)
]

listen-Distinct :
    (now : ℕ) (heard : Option PeerId) (seen : LastSeen)
    → Assoc.Distinct PeerId-discrete seen
    → Assoc.Distinct PeerId-discrete (listen now heard seen).0
unfolding heartbeat
listen-Distinct now none seen d = d
listen-Distinct now (some []) seen d = d
listen-Distinct now (some (b ∷ id)) seen d = Assoc.put-Distinct PeerId-discrete (b ∷ id) now seen d

check-Distinct :
    (now : Option ℕ) (seen : LastSeen)
    → Assoc.Distinct PeerId-discrete seen
    → Assoc.Distinct PeerId-discrete (check now seen).0
unfolding check_timeout
check-Distinct none seen d = d
check-Distinct (some now) seen d = sweep-Distinct now seen d

receive_from-Distinct :
    (seen : LastSeen) (rs : List Round)
    → Assoc.Distinct PeerId-discrete seen
    → Assoc.Distinct PeerId-discrete (receive_from seen rs).0
unfolding receive_from round
receive_from-Distinct seen [] d = d
receive_from-Distinct seen (r ∷ rs) d =
    receive_from-Distinct (round r seen).0 rs
      (check-Distinct r.checked_at _ (listen-Distinct r.heard_at r.heard seen d))

-- An ID that is not in the map is none of the IDs.
absent-ids :
    (id : PeerId) (seen : LastSeen)
    → Assoc.get? PeerId-discrete id seen ≡ none
    → All (λ j. id ≢ j) (ids seen)
unfolding Assoc.get?
absent-ids id [] h = tt
absent-ids id ((j, t) ∷ seen) h = elim (PeerId-discrete j id) [
  | yes p ↦ absurd (ground arith)
  | no p ↦ (λ e. p (sym e), absent-ids id seen (ground arith))
]

ids-Unrepeated : (seen : LastSeen) → Assoc.Distinct PeerId-discrete seen → Unrepeated (ids seen)
ids-Unrepeated [] d = tt
ids-Unrepeated ((j, t) ∷ seen) d = (absent-ids j seen d.0, ids-Unrepeated seen d.1)

-- The station handles what the receiver sent, one update after the other.
abbrev pub follow : Station → List PeerUpdate → Station
follow s [] = s
follow s (u ∷ us) = follow (on_peer_update u s) us

apply_mine_frame :
    (o : Option Requests) (s : Station)
    → ((apply_mine o s).peer_list ≡ s.peer_list) × ((apply_mine o s).id ≡ s.id)
apply_mine_frame none s = (refl, refl)
apply_mine_frame (some m) s = (refl, refl)

if_master_frame :
    (s : Station)
    → ((reassign_if_master s).peer_list ≡ s.peer_list) × ((reassign_if_master s).id ≡ s.id)
unfolding reassign_if_master reassign light
if_master_frame s = elim (Bool-cases (is_master s)) [
  | inl t ↦
      rw t (
        apply_mine_frame (Assoc.get? PeerId-discrete s.id (assign s.hall_requests s.peer_states)) s)
  | inr f ↦ rw f (refl, refl)
]

peer_list-on_peer_update :
    (u : PeerUpdate) (s : Station)
    → ((on_peer_update u s).peer_list ≡ u.peers) × ((on_peer_update u s).id ≡ s.id)
unfolding on_peer_update
peer_list-on_peer_update u s =
    if_master_frame
      (record s { peer_list = u.peers; peer_states = delete_all u.lost s.peer_states })

follow-told :
    (s : Station) (us : List PeerUpdate)
    → ((follow s us).peer_list ≡ told s.peer_list us) × ((follow s us).id ≡ s.id)
follow-told s [] = (refl, refl)
follow-told s (u ∷ us) =
    let here = peer_list-on_peer_update u s in
    let rest = follow-told (on_peer_update u s) us in
    (rest.0 ∙ ap (λ known. told known us) here.0, rest.1 ∙ here.1)

-- The master of a station that has handled the updates is the first of the known IDs in order.
master_id-follow :
    (s : Station) (rs : List Round)
    → s.peer_list ≡ []
    → master_id (follow s (receive rs).1)
      ≡ first_or s.id (Sort.sort compare_bytes (ids (receive rs).0))
unfolding master_id
master_id-follow s rs e =
    let f = follow-told s (receive rs).1 in
    let known = f.0 ∙ ap (λ ps. told ps (receive rs).1) e ∙ receive-told rs in
    (λ i. first_or (f.1 i) (known i))

first_or_any : (a b x : PeerId) (xs : List PeerId) → Memᴰ x xs → first_or a xs ≡ first_or b xs
first_or_any a b x [] m = elim m [ ]
first_or_any a b x (y ∷ xs) m = refl

known-Unrepeated : (rs : List Round) → Unrepeated (ids (receive rs).0)
unfolding receive
known-Unrepeated rs = ids-Unrepeated _ (receive_from-Distinct [] rs tt)

-- Two stations that start with no peers and handle, one after the other, all the updates of their
-- receivers, whatever rounds these made, agree on the master's ID if the maps of both receivers
-- hold the same IDs at the end, and at least one.
pub same_master :
    (s t : Station) (rs qs : List Round) (id : PeerId)
    → s.peer_list ≡ []
    → t.peer_list ≡ []
    → Memᴰ id (ids (receive rs).0)
    → ((j : PeerId) → Memᴰ j (ids (receive rs).0) → Memᴰ j (ids (receive qs).0))
    → ((j : PeerId) → Memᴰ j (ids (receive qs).0) → Memᴰ j (ids (receive rs).0))
    → master_id (follow s (receive rs).1) ≡ master_id (follow t (receive qs).1)
same_master s t rs qs id es et m sub sup =
    let same =
      sort_ext compare_bytes compare_bytes-IsCompare (ids (receive rs).0) (ids (receive qs).0)
        (known-Unrepeated rs) (known-Unrepeated qs) sub sup in
    master_id-follow s rs es
    ∙ first_or_any s.id t.id id _
        (member-Permᴰ (Sort.sort-Permᴰ compare_bytes (ids (receive rs).0)) m)
    ∙ ap (first_or t.id) same
    ∙ sym (master_id-follow t qs et)
