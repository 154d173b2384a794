-- ===== src/Tests/Network.antt =====
-- The client and the network of linux/mfs.c and linux/sendPacket.c at fixed inputs.
use p.Prelude.{
  ◌+◌, ◌≡◌, refl, true, false, none, some, List, [], ◌∷◌, ◌++◌, if◌then◌else◌, length, replicate,
  arith,
}
use p.Word.{Byte, minus_one, is_neg}
use p.CString.{c_str}
use p.Struct.{Stat}
use p.Lfs.State.{Lfs}
use p.Lfs.Lookup.{lookup_server}
use p.Lfs.Transfer.{write_server, read_server}
use p.Mfs.Packet.{Packet, Method}
use p.Mfs.Send.{Net, Round, send_packet}
use p.Mfs.Send.Retry.{send_packet-lost}
use p.Mfs.Client.{Client, mfs_lookup, mfs_write, mfs_read, done}
use p.Mfs.Client.Service.{served, mfs_lookup-served, transfer-served}
use p.Mfs.Listen.{ServerLocals}

abbrev stat0 : Stat
stat0 = record { type = 0; size = 0 }

abbrev packet : Packet
packet = record {
  method = Method.response;
  stat = stat0;
  inum = 4;
  type = 0;
  block = 0;
  name = replicate 28 0;
  buffer = [];
}

abbrev net : Net
net = record { opens = true; resolves = true; rounds = [] }

abbrev lossy : List Round
lossy = Round.timeout ∷ Round.failed ∷ []

send_packet-lost_example :
    (send_packet (record net { rounds = lossy ++ Round.received packet ∷ [] }) packet
      ≡ some (record { rc = 0; response = packet; writes = length lossy + 1 }))
    × (send_packet (record net { rounds = lossy }) packet ≡ none)
send_packet-lost_example = send_packet-lost net lossy packet packet [] refl refl (tt, (tt, tt))

abbrev idle : Client
idle = record { init_done = false; server_name = []; server_port = 0 }

abbrev ready : Client
ready = record { init_done = true; server_name = []; server_port = 0 }

abbrev long_name : List Byte
long_name = replicate 28 b'a'

abbrev server : Lfs
server = record {
  imap = λ _. minus_one;
  next_block = 6;
  file = record { content = λ _. 0; size = 0; pos = 0 };
}

abbrev locals : ServerLocals
locals = record {
  lookup_node = [];
  lookup_direct = [];
  stat_node = [];
  write_node = [];
  read = record { node = []; pnode = []; direct = []; dir_ent = record { name = []; inum = 0 } };
  creat = record {
    parent = [];
    behind_parent = [];
    lookup_node = [];
    lookup_direct = [];
    block = [];
    names = [];
  };
  unlink = record {
    pinode = [];
    direct = [];
    lookup_node = [];
    lookup_direct = [];
    node = [];
    temp_dir = [];
  };
  response = packet;
}

mfs_lookup-served_example :
    mfs_lookup ready (served locals server lossy) packet packet 0 (b'a' ∷ [])
    ≡ done (lookup_server 0 (b'a' ∷ []) [] [] server).0
unfolding c_str
mfs_lookup-served_example =
    mfs_lookup-served ready refl locals server lossy (tt, (tt, tt)) packet packet refl 0 (b'a' ∷ [])
      (omega arith)

transfer-served_example :
    (mfs_write ready (served locals server lossy) packet packet 0 [] 3
      ≡ done (write_server 0 [] 3 [] server).0)
    × (let (rc, got, _) = read_server 0 [] 3 locals.read server in
        mfs_read ready (served locals server lossy) packet packet 0 [] 3
        ≡ done (rc, if is_neg rc then [] else got))
transfer-served_example =
    transfer-served ready refl locals server lossy (tt, (tt, tt)) packet packet refl 0 [] 3
