-- ===== src/Station/Broadcast.antt =====
-- network/bcast/bcast.go: values of one type, sent to all. `marshal` and `unmarshal` are those of
-- encoding/json at the type.
pub mod Shared
use heis_test.Prelude.{
  ◌≡◌, refl, ap, List, [], ◌∷◌, map, Bool, Option, none, some, Option-cases, Bool-cases, inl, inr,
  if◌then◌else◌,
}

-- What is put behind: a packet, where the message can be encoded and `conn.Write` succeeds.
abbrev written {ℓ} : {Bytes : Type ℓ} → Option Bytes → Bool → List Bytes → List Bytes
written none ok rest = rest
written (some b) ok rest = if ok then b ∷ rest else rest

-- A message, where the packet can be decoded.
abbrev taken {ℓ} : {T : Type ℓ} → Option T → List T → List T
taken none rest = rest
taken (some msg) rest = msg ∷ rest

module _ {ℓ} {T Bytes : Type ℓ} where
  -- The loop of `Transmitter`, over the messages of its channel, each with whether `conn.Write`
  -- succeeds: the packets that leave.
  unfoldable pub transmit : (T → Option Bytes) → List (T × Bool) → List Bytes
  transmit marshal [] = []
  transmit marshal ((msg, ok) ∷ msgs) = written (marshal msg) ok (transmit marshal msgs)

  -- The loop of `Receiver`, over its reads, where `none` is an error: what it puts on its channel.
  unfoldable pub receive : (Bytes → Option T) → List (Option Bytes) → List T
  receive unmarshal [] = []
  receive unmarshal (none ∷ reads) = receive unmarshal reads
  receive unmarshal (some b ∷ reads) = taken (unmarshal b) (receive unmarshal reads)

  -- The messages that can be encoded and that `conn.Write` takes.
  abbrev kept : Option Bytes → Bool → T → List T → List T
  kept none ok msg rest = rest
  kept (some b) ok msg rest = if ok then msg ∷ rest else rest

  abbrev pub sendable : (T → Option Bytes) → List (T × Bool) → List T
  sendable marshal [] = []
  sendable marshal ((msg, ok) ∷ msgs) = kept (marshal msg) ok msg (sendable marshal msgs)

  -- If decoding what was encoded gives the message back, a receiver that reads every packet of a
  -- transmitter in its order puts on its channel exactly the messages that can be encoded and whose
  -- write succeeds, in the order in which they were sent.
  pub receive-transmit :
      (marshal : T → Option Bytes) (unmarshal : Bytes → Option T)
      → ((msg : T) (b : Bytes) → marshal msg ≡ some b → unmarshal b ≡ some msg)
      → (msgs : List (T × Bool))
      → receive unmarshal (map some (transmit marshal msgs)) ≡ sendable marshal msgs
  unfolding transmit receive
  receive-transmit marshal unmarshal decodes [] = refl
  receive-transmit marshal unmarshal decodes ((msg, ok) ∷ msgs) =
      let rest = receive-transmit marshal unmarshal decodes msgs in
      elim (Option-cases (marshal msg)) [
        | inl e ↦ rw e rest
        | inr (b, e) ↦ elim (Bool-cases ok) [
          | inl t ↦ rw (e, t, decodes msg b e) (ap (msg ∷◌) rest)
          | inr f ↦ rw (e, f) rest
        ]
      ]
