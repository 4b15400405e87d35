-- ===== src/Station/Broadcast/Shared.antt =====
-- network/bcast/bcast.go: a receiver on a port that two transmitters share.
use heis_test.Prelude.{
  ◌≡◌, subst, List, [], ◌∷◌, map, Bool, Option, none, some, Option-cases, inl, inr,
}
use heis_test.Station.Broadcast.{transmit, receive, sendable, receive-transmit}

-- Two lists in one, each in its order.
pub data Interleaved {ℓ} {A : Type ℓ} : List A → List A → List A → Type ℓ where
  ends : Interleaved [] [] []
  left : {x : A} {xs ys zs : List A} → Interleaved xs ys zs → Interleaved (x ∷ xs) ys (x ∷ zs)
  right : {y : A} {xs ys zs : List A} → Interleaved xs ys zs → Interleaved xs (y ∷ ys) (y ∷ zs)

-- What a receiver reads where two transmitters send these packets: each packet, those of one
-- transmitter in their order, and in between reads that fail and packets that do not decode.
pub data Heard {ℓ} {T Bytes : Type ℓ} (unmarshal : Bytes → Option T)
    : List Bytes → List Bytes → List (Option Bytes) → Type ℓ where
  silence : Heard unmarshal [] [] []
  first :
      {b : Bytes} {ps qs : List Bytes} {reads : List (Option Bytes)}
      → Heard unmarshal ps qs reads
      → Heard unmarshal (b ∷ ps) qs (some b ∷ reads)
  second :
      {b : Bytes} {ps qs : List Bytes} {reads : List (Option Bytes)}
      → Heard unmarshal ps qs reads
      → Heard unmarshal ps (b ∷ qs) (some b ∷ reads)
  failed :
      {ps qs : List Bytes} {reads : List (Option Bytes)}
      → Heard unmarshal ps qs reads
      → Heard unmarshal ps qs (none ∷ reads)
  foreign :
      {b : Bytes} {ps qs : List Bytes} {reads : List (Option Bytes)}
      → unmarshal b ≡ none
      → Heard unmarshal ps qs reads
      → Heard unmarshal ps qs (some b ∷ reads)

module _ {ℓ} {T Bytes : Type ℓ} (unmarshal : Bytes → Option T) where
  Heard-Interleaved :
      {ps qs : List Bytes} {reads : List (Option Bytes)}
      → Heard unmarshal ps qs reads
      → Interleaved
          (receive unmarshal (map some ps))
          (receive unmarshal (map some qs))
          (receive unmarshal reads)
  unfolding receive
  Heard-Interleaved silence = ends
  Heard-Interleaved (first {b} h) = elim (Option-cases (unmarshal b)) [
    | inl e ↦ rw e (Heard-Interleaved h)
    | inr (m, e) ↦ rw e (left (Heard-Interleaved h))
  ]
  Heard-Interleaved (second {b} h) = elim (Option-cases (unmarshal b)) [
    | inl e ↦ rw e (Heard-Interleaved h)
    | inr (m, e) ↦ rw e (right (Heard-Interleaved h))
  ]
  Heard-Interleaved (failed h) = Heard-Interleaved h
  Heard-Interleaved (foreign {b} e h) = rw e (Heard-Interleaved h)

  -- Two transmitters share a port, and a receiver reads all their packets, those of each in its
  -- order, with failed reads and packets that do not decode anywhere in between. If decoding what
  -- was encoded gives the message back, the receiver puts on its channel all the messages that the
  -- two could encode and write, those of each in the order in which they were sent, and nothing
  -- else.
  pub receive-Interleaved :
      (marshal : T → Option Bytes)
      → ((msg : T) (b : Bytes) → marshal msg ≡ some b → unmarshal b ≡ some msg)
      → (ms ns : List (T × Bool)) (reads : List (Option Bytes))
      → Heard unmarshal (transmit marshal ms) (transmit marshal ns) reads
      → Interleaved (sendable marshal ms) (sendable marshal ns) (receive unmarshal reads)
  receive-Interleaved marshal decodes ms ns reads h =
      subst (λ xs. Interleaved xs (sendable marshal ns) (receive unmarshal reads))
        (receive-transmit marshal unmarshal decodes ms)
        (subst
          (λ ys.
            Interleaved (receive unmarshal (map some (transmit marshal ms))) ys
              (receive unmarshal reads))
          (receive-transmit marshal unmarshal decodes ns) (Heard-Interleaved h))
