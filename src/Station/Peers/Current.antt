-- ===== src/Station/Peers/Current.antt =====
-- What the receiver of heartbeats tells the station (network/peers/peers.go): always the peers that
-- it has in its map.
use heis_test.Prelude.{
  ℕ, ◌≡◌, refl, sym, ap, ◌∙◌, List, [], ◌∷◌, ◌++◌, Option, none, some, Option-cases, inl, inr,
  arith,
}
use heis_test.Prelude.Assoc
use heis_test.Prelude.Sort
use heis_test.Prelude.Compare.{compare_bytes}
use heis_test.Station.HallAssigner.{PeerId, PeerId-discrete}
use heis_test.Station.Peers.{
  PeerUpdate, LastSeen, ids, build_update, heartbeat, sweep, farewell, check_timeout, listen, check,
  Round, round, receive_from, receive,
}

-- The peers that a listener to the updates knows at the end.
abbrev pub told : List PeerId → List PeerUpdate → List PeerId
told known [] = known
told known (u ∷ us) = told u.peers us

-- What is to be told: the IDs of the map, in order.
abbrev pub peers_of : LastSeen → List PeerId
peers_of seen = Sort.sort compare_bytes (ids seen)

told-append :
    (known : List PeerId) (us vs : List PeerUpdate)
    → told known (us ++ vs) ≡ told (told known us) vs
told-append known [] vs = refl
told-append known (u ∷ us) vs = told-append u.peers us vs

-- A heartbeat of a known peer leaves the IDs alone.
ids-put :
    (id : PeerId) (now t : ℕ) (seen : LastSeen)
    → Assoc.get? PeerId-discrete id seen ≡ some t
    → ids (Assoc.put PeerId-discrete id now seen) ≡ ids seen
unfolding Assoc.get? Assoc.put
ids-put id now t [] h = absurd (ground arith)
ids-put id now t ((j, u) ∷ seen) h = ground (arith, ids-put id now t seen)

heartbeat-told :
    (now : ℕ) (id : PeerId) (seen : LastSeen)
    → told (peers_of seen) (heartbeat now id seen).1 ≡ peers_of (heartbeat now id seen).0
unfolding heartbeat build_update
heartbeat-told now id seen = elim (Option-cases (Assoc.get? PeerId-discrete id seen)) [
  | inl e ↦ rw e refl
  | inr (t, e) ↦ rw e (ap (Sort.sort compare_bytes) (sym (ids-put id now t seen e)))
]

sweep_unchanged : (now : ℕ) (seen : LastSeen) → (sweep now seen).1 ≡ [] → (sweep now seen).0 ≡ seen
unfolding sweep
sweep_unchanged now [] h = refl
sweep_unchanged now ((id, t) ∷ seen) h = ground (arith, sweep_unchanged now seen)

farewell-told :
    (seen kept : LastSeen) (lost : List PeerId)
    → (lost ≡ [] → kept ≡ seen)
    → told (peers_of seen) (farewell kept lost) ≡ peers_of kept
unfolding build_update
farewell-told seen kept [] h = ap peers_of (sym (h refl))
farewell-told seen kept (id ∷ lost) h = refl

listen-told :
    (now : ℕ) (heard : Option PeerId) (seen : LastSeen)
    → told (peers_of seen) (listen now heard seen).1 ≡ peers_of (listen now heard seen).0
listen-told now none seen = refl
listen-told now (some []) seen = refl
listen-told now (some (b ∷ id)) seen = heartbeat-told now (b ∷ id) seen

check-told :
    (now : Option ℕ) (seen : LastSeen)
    → told (peers_of seen) (check now seen).1 ≡ peers_of (check now seen).0
unfolding check_timeout
check-told none seen = refl
check-told (some now) seen =
    farewell-told seen (sweep now seen).0 (sweep now seen).1 (sweep_unchanged now seen)

round-told :
    (r : Round) (seen : LastSeen)
    → told (peers_of seen) (round r seen).1 ≡ peers_of (round r seen).0
unfolding round
round-told r seen =
    let first = listen r.heard_at r.heard seen in
    let second = check r.checked_at first.0 in
    told-append (peers_of seen) first.1 second.1
    ∙ ap (λ known. told known second.1) (listen-told r.heard_at r.heard seen)
    ∙ check-told r.checked_at first.0

receive_from-told :
    (seen : LastSeen) (rs : List Round)
    → told (peers_of seen) (receive_from seen rs).1 ≡ peers_of (receive_from seen rs).0
unfolding receive_from
receive_from-told seen [] = refl
receive_from-told seen (r ∷ rs) =
    let next = round r seen in
    told-append (peers_of seen) next.1 (receive_from next.0 rs).1
    ∙ ap (λ known. told known (receive_from next.0 rs).1) (round-told r seen)
    ∙ receive_from-told next.0 rs

-- Whatever rounds the receiver of heartbeats makes from its start, the peers of the last update
-- that it has sent, or none if it has sent none, are the IDs of its map in order.
pub receive-told :
    (rs : List Round) → told [] (receive rs).1 ≡ Sort.sort compare_bytes (ids (receive rs).0)
unfolding receive Sort.sort
receive-told rs = receive_from-told [] rs
