-- ===== src/Mfs/Listen.antt =====
-- listenOnServer of linux/listenServer.c, once its socket is open: the packets that UDP_Read gives
-- are an argument, the packets that UDP_Write sends are the result.
use p.Prelude.{Bool, true, false, Option, none, some, List, [], ◌∷◌}
use p.Word.{Byte}
use p.Mfs.Packet.{Packet, Method}
use p.Lfs.State.{Lfs}
use p.Lfs.Lookup.{lookup_server, stat_server}
use p.Lfs.Transfer.{ReadLocals, write_server, read_server}
use p.Lfs.Creat.{CreatLocals, creat_server}
use p.Lfs.Unlink.{UnlinkLocals, unlink_server}

-- What the locals of the server's operations, and the local response, hold beforehand.
pub record ServerLocals : Type 0 where
  pub lookup_node : List Byte
  pub lookup_direct : List Byte
  pub stat_node : List Byte
  pub write_node : List Byte
  pub read : ReadLocals
  pub creat : CreatLocals
  pub unlink : UnlinkLocals
  pub response : Packet

-- The switch: the operation that the method names, its results in the response.
unfoldable pub dispatch : Method → ServerLocals → Packet → Lfs → Packet × Lfs
dispatch Method.lookup l sent s =
    let (rc, s') = lookup_server sent.inum sent.name l.lookup_node l.lookup_direct s in
    (record (l.response) { inum = rc }, s')
dispatch Method.stat l sent s =
    let (rc, m, s') = stat_server sent.inum l.response.stat l.stat_node s in
    (record (l.response) { inum = rc; stat = m }, s')
dispatch Method.write l sent s =
    let (rc, s') = write_server sent.inum sent.buffer sent.block l.write_node s in
    (record (l.response) { inum = rc }, s')
dispatch Method.read l sent s =
    let (rc, buffer, s') = read_server sent.inum l.response.buffer sent.block l.read s in
    (record (l.response) { inum = rc; buffer = buffer }, s')
dispatch Method.creat l sent s =
    let (rc, s') = creat_server l.creat sent.inum sent.type sent.name s in
    (record (l.response) { inum = rc }, s')
dispatch Method.unlink l sent s =
    let (rc, s') = unlink_server l.unlink sent.inum sent.name s in
    (record (l.response) { inum = rc }, s')
dispatch _ l sent s = (l.response, s)

-- One packet handled: the response sent back, and the state.
unfoldable pub handle : ServerLocals → Packet → Lfs → Packet × Lfs
unfolding dispatch
handle l sent s =
    let (r, s') = dispatch sent.method l sent s in (record r { method = Method.response }, s')

abbrev is_shutdown : Method → Bool
is_shutdown Method.shutdown = true
is_shutdown _ = false

-- The loop over what UDP_Read gives (`none` for an error or an empty datagram), until the packets
-- are over or one asks for the shutdown: the responses, the state, and whether it still runs.
unfoldable pub listen : ServerLocals → List (Option Packet) → Lfs → List Packet × Lfs × Bool
unfolding handle
listen l [] s = ([], s, true)
listen l (none ∷ packets) s = listen l packets s
listen l (some sent ∷ packets) s =
    let (r, s') = handle l sent s in
    elim (is_shutdown sent.method) [
      | true ↦ (r ∷ [], s', false)
      | false ↦ let (rs, t, running) = listen l packets s' in (r ∷ rs, t, running)
    ]
