-- ===== src/Mfs/Client.antt =====
-- The client library of linux/mfs.c. A call is what it hands to sendPacket, if anything, and what it
-- makes of the outcome. The network is a function of the packet sent, so that a server can stand
-- behind it; `send0` and `receive0` are what the two local packets hold beforehand.
pub mod Service
use p.Prelude.{
  ℕ, ◌+◌, Bool, true, false, Option, none, some, List, [], ◌∷◌, ◌++◌, ltb, if◌then◌else◌, length,
  not,
}
use p.Word.{Word, Byte, minus_one, is_neg}
use p.CString.{c_str, strcpy}
use p.Struct.{Stat}
use p.Mfs.Packet.{Packet, Method}
use p.Mfs.Send.{Sent, Net, send_packet}

-- The globals init_done, server_name and server_port.
pub record Client : Type 0 where
  pub init_done : Bool
  pub server_name : List Byte
  pub server_port : Word

unfoldable pub length_check : List Byte → Word
length_check name = if ltb 27 (length (c_str name)) then minus_one else 0

unfoldable pub mfs_init : Option (List Byte) → Word → Client → Word × Client
mfs_init none port c = (minus_one, c)
mfs_init (some hostname) port c =
    if is_neg port
    then (minus_one, c)
    else (0, record { init_done = true; server_name = hostname; server_port = port })

-- What a call gives: `waiting` while sendPacket still waits for a response.
pub data Outcome (A : Type 0) : Type 0 where
  waiting : Outcome A
  done : A → Outcome A

-- The part that the calls share: send, give up if sendPacket fails, or go on with the response.
unfoldable pub exchange :
    {A : Type 0} → (Packet → Net) → Packet → Packet → A → (Packet → A) → Outcome A
exchange net send receive0 fail next = elim (send_packet (net send) receive0) [
  | none ↦ waiting
  | some sent ↦ if is_neg sent.rc then done fail else done (next sent.response)
]

module _ (c : Client) (net : Packet → Net) (send0 receive0 : Packet) where
  unfoldable pub mfs_lookup : Word → List Byte → Outcome Word
  unfolding length_check exchange
  mfs_lookup pinum name =
      if not c.init_done
      then done minus_one
      else if is_neg (length_check name)
      then done minus_one
      else exchange net
          (record send0 { inum = pinum; name = strcpy send0.name name; method = Method.lookup })
          receive0 minus_one (λ r. r.inum)

  -- The result, and `*m` afterwards.
  unfoldable pub mfs_stat : Word → Stat → Outcome (Word × Stat)
  unfolding exchange
  mfs_stat inum m =
      if not c.init_done
      then done (minus_one, m)
      else exchange net (record send0 { inum = inum; method = Method.stat }) receive0 (minus_one, m)
          (λ r. if is_neg r.inum then (minus_one, m) else (r.inum, r.stat))

  -- `buffer` holds 4096 bytes.
  unfoldable pub mfs_write : Word → List Byte → Word → Outcome Word
  unfolding exchange
  mfs_write inum buffer block =
      if not c.init_done
      then done minus_one
      else exchange net
          (record send0 { method = Method.write; inum = inum; buffer = buffer; block = block })
          receive0 minus_one (λ r. r.inum)

  -- The result, and the buffer afterwards.
  unfoldable pub mfs_read : Word → List Byte → Word → Outcome (Word × List Byte)
  unfolding exchange
  mfs_read inum buffer block =
      if not c.init_done
      then done (minus_one, buffer)
      else exchange net (record send0 { method = Method.read; inum = inum; block = block }) receive0
          (minus_one, buffer) (λ r. (r.inum, if is_neg r.inum then buffer else r.buffer))

  unfoldable pub mfs_creat : Word → Word → List Byte → Outcome Word
  unfolding length_check exchange
  mfs_creat pinum type name =
      if not c.init_done
      then done minus_one
      else if is_neg (length_check name)
      then done minus_one
      else exchange net
          (record send0 {
            inum = pinum;
            type = type;
            method = Method.creat;
            name = strcpy send0.name name;
          })
          receive0 minus_one (λ r. r.inum)

  unfoldable pub mfs_unlink : Word → List Byte → Outcome Word
  unfolding length_check exchange
  mfs_unlink pinum name =
      if not c.init_done
      then done minus_one
      else if is_neg (length_check name)
      then done minus_one
      else exchange net
          (record send0 { method = Method.unlink; inum = pinum; name = strcpy send0.name name })
          receive0 minus_one (λ r. r.inum)

  unfoldable pub mfs_shutdown : Outcome Word
  unfolding exchange
  mfs_shutdown =
      if not c.init_done
      then done minus_one
      else exchange net (record send0 { method = Method.shutdown }) receive0 minus_one (λ _. 0)
