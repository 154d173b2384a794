-- ===== src/Mfs/Send.antt =====
-- sendPacket of linux/sendPacket.c. What the network does is an argument: whether the socket opens,
-- whether the address is found, and what becomes of each round of the loop.
pub mod Retry
use p.Prelude.{ℕ, ◌+◌, Bool, true, false, Option, none, some, List, [], ◌∷◌, if◌then◌else◌}
use p.Word.{Word, minus_one}
use p.Mfs.Packet.{Packet}

-- A round sends the packet and waits: select runs out, the read fails, or a packet is read.
pub data Round : Type 0 where
  timeout : Round
  failed : Round
  received : Packet → Round

-- What sendPacket returns, the response buffer, and how often it has sent the packet.
pub record Sent : Type 0 where
  pub rc : Word
  pub response : Packet
  pub writes : ℕ

-- The loop; `none` while it still waits when the rounds given are over.
unfoldable pub retry : List Round → Packet → ℕ → Option Sent
retry [] response writes = none
retry (timeout ∷ rounds) response writes = retry rounds response (writes + 1)
retry (failed ∷ rounds) response writes = retry rounds response (writes + 1)
retry (received packet ∷ rounds) response writes =
    some (record { rc = 0; response = packet; writes = writes + 1 })

pub record Net : Type 0 where
  pub opens : Bool
  pub resolves : Bool
  pub rounds : List Round

unfoldable pub send_packet : Net → Packet → Option Sent
unfolding retry
send_packet net response =
    if net.opens
    then (if net.resolves
        then retry net.rounds response 0
        else some (record { rc = minus_one; response = response; writes = 0 }))
    else some (record { rc = minus_one; response = response; writes = 0 })
