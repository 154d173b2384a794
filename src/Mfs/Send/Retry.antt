-- ===== src/Mfs/Send/Retry.antt =====
-- The loop of linux/sendPacket.c: lost rounds are made good by sending again.
use p.Prelude.{
  ℕ, ◌+◌, ◌≡◌, refl, ap, ◌∙◌, true, none, some, List, [], ◌∷◌, ◌++◌, length, All, arith,
}
use p.Mfs.Packet.{Packet}
use p.Mfs.Send.{Round, Net, retry, send_packet}

-- A round that brings no packet.
abbrev pub IsLost : Round → Type 0
IsLost (Round.received _) = ⊥
IsLost _ = Unit

retry-lost :
    (lost : List Round) (p r : Packet) (more : List Round) (w : ℕ)
    → All IsLost lost
    → retry (lost ++ Round.received p ∷ more) r w
      ≡ some (record { rc = 0; response = p; writes = w + (length lost + 1) })
unfolding retry
retry-lost [] p r more w h =
    ap (λ n. some (record { rc = 0; response = p; writes = n })) (omega arith)
retry-lost (Round.timeout ∷ lost) p r more w h =
    retry-lost lost p r more (w + 1) h.1
    ∙ ap (λ n. some (record { rc = 0; response = p; writes = n })) (omega arith)
retry-lost (Round.failed ∷ lost) p r more w h =
    retry-lost lost p r more (w + 1) h.1
    ∙ ap (λ n. some (record { rc = 0; response = p; writes = n })) (omega arith)
retry-lost (Round.received q ∷ lost) p r more w h = absurd h.0

retry-all_lost : (lost : List Round) (r : Packet) (w : ℕ) → All IsLost lost → retry lost r w ≡ none
unfolding retry
retry-all_lost [] r w h = refl
retry-all_lost (Round.timeout ∷ lost) r w h = retry-all_lost lost r (w + 1) h.1
retry-all_lost (Round.failed ∷ lost) r w h = retry-all_lost lost r (w + 1) h.1
retry-all_lost (Round.received q ∷ lost) r w h = absurd h.0

-- With a socket and an address, sendPacket sends again after every lost round: it succeeds with the
-- first packet received, having sent one packet more than rounds were lost, and while every round
-- is lost it does not return.
pub send_packet-lost :
    (net : Net) (lost : List Round) (p r : Packet) (more : List Round)
    → net.opens ≡ true
    → net.resolves ≡ true
    → All IsLost lost
    → (send_packet (record net { rounds = lost ++ Round.received p ∷ more }) r
        ≡ some (record { rc = 0; response = p; writes = length lost + 1 }))
      × (send_packet (record net { rounds = lost }) r ≡ none)
unfolding send_packet
send_packet-lost net lost p r more o a h =
    rw (o, a)
      (
        retry-lost lost p r more 0 h
            ∙ ap (λ n. some (record { rc = 0; response = p; writes = n })) (omega arith),
        retry-all_lost lost r 0 h,
      )
