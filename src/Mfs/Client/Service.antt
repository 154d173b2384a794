-- ===== src/Mfs/Client/Service.antt =====
-- The client library (linux/mfs.c) with the server behind it (linux/listenServer.c): over a network
-- that loses some rounds and then brings the server's response, a call gives what the operation of
-- linux/lfs.c gives.
use p.Prelude.{
  ◌≤◌, ◌≡◌, refl, ap, true, false, List, [], ◌∷◌, ◌++◌, length, All, if◌then◌else◌, ◌==◌, arith,
}
use p.Word.{Word, Byte, minus_one, is_neg}
use p.CString.{c_str, str_eq, strcpy, c_str-strcpy}
use p.Struct.{Inode, decode_inode, decode_dir}
use p.Lfs.State.{Lfs, seek_block, fetch, find_inode}
use p.Lfs.Lookup.{find_name, lookup_blocks, lookup_server}
use p.Lfs.Transfer.{write_server, read_server}
use p.Mfs.Packet.{Packet}
use p.Mfs.Send.{Net, Round}
use p.Mfs.Send.Retry.{IsLost, send_packet-lost}
use p.Mfs.Client.{Client, length_check, done, exchange, mfs_lookup, mfs_write, mfs_read}
use p.Mfs.Listen.{ServerLocals, handle}

-- The network with the server at state `s` behind it.
abbrev pub served : ServerLocals → Lfs → List Round → Packet → Net
served l s lost sent = record {
  opens = true;
  resolves = true;
  rounds = lost ++ Round.received (handle l sent s).0 ∷ [];
}

-- lookup_server takes of a name only the string that it holds.
find_name-c_str :
    (inums : List Word) (names : List (List Byte)) (a b : List Byte)
    → c_str a ≡ c_str b
    → find_name inums names a ≡ find_name inums names b
unfolding find_name str_eq
find_name-c_str [] [] a b e = refl
find_name-c_str [] (s ∷ names) a b e = refl
find_name-c_str (i ∷ inums) [] a b e = refl
find_name-c_str (i ∷ inums) (s ∷ names) a b e = rw (e, find_name-c_str inums names a b e)

lookup_blocks-c_str :
    (us bs : List Word) (a b direct : List Byte) (s : Lfs)
    → c_str a ≡ c_str b
    → lookup_blocks us bs a direct s ≡ lookup_blocks us bs b direct s
unfolding lookup_blocks
lookup_blocks-c_str [] bs a b direct s e = refl
lookup_blocks-c_str (u ∷ us) [] a b direct s e = refl
lookup_blocks-c_str (u ∷ us) (p ∷ bs) a b direct s e = ground (
  arith,
  find_name-c_str (decode_dir (fetch 4096 direct (seek_block p s)).0).inums
      (decode_dir (fetch 4096 direct (seek_block p s)).0).names a b e,
  lookup_blocks-c_str us bs a b direct s e,
  lookup_blocks-c_str us bs a b (fetch 4096 direct (seek_block p s)).0
      (fetch 4096 direct (seek_block p s)).1 e,
)

lookup_server-c_str :
    (i : Word) (a b node direct : List Byte) (s : Lfs)
    → c_str a ≡ c_str b
    → lookup_server i a node direct s ≡ lookup_server i b node direct s
unfolding lookup_server
lookup_server-c_str i a b node direct s e =
    ap (λ (r : Word × Lfs). if rc == 0 then r else (minus_one, s1))
      (lookup_blocks-c_str n.dp_used n.dpointers a b direct s1 e)
  where
    rc : Word
    rc = (find_inode i node s).0

    n : Inode
    n = decode_inode (find_inode i node s).1

    s1 : Lfs
    s1 = (find_inode i node s).2

exchange-served :
    {A : Type 0} (l : ServerLocals) (s : Lfs) (lost : List Round) (send receive0 : Packet)
    (fail : A) (next : Packet → A)
    → All IsLost lost
    → exchange (served l s lost) send receive0 fail next ≡ done (next (handle l send s).0)
unfolding exchange
exchange-served l s lost send receive0 fail next h = rw (
  (send_packet-lost (record { opens = true; resolves = true; rounds = [] }) lost (handle l send s).0
      receive0 [] refl refl h).0,
  exchange,
)

module _ (c : Client) (ready : c.init_done ≡ true) (l : ServerLocals) (s : Lfs) (lost : List Round)
    (h : All IsLost lost) (send0 receive0 : Packet) (room : length send0.name ≡ 28) where
  -- Of an initialised client, with a name of at most 27 bytes and a network that brings the server's
  -- response after any number of lost rounds, MFS_Lookup returns what lookup_server finds.
  pub mfs_lookup-served :
      (pinum : Word) (name : List Byte)
      → length (c_str name) ≤ 27
      → mfs_lookup c (served l s lost) send0 receive0 pinum name
        ≡ done (lookup_server pinum name l.lookup_node l.lookup_direct s).0
  unfolding mfs_lookup handle
  mfs_lookup-served pinum name short =
      rw (ready, ok, exchange-served l s lost _ receive0 minus_one (λ r. r.inum) h)
        (ap (λ (r : Word × Lfs). done r.0)
          (lookup_server-c_str pinum (strcpy send0.name name) name l.lookup_node l.lookup_direct s
            (c_str-strcpy send0.name name (omega arith))))
    where
      ok : is_neg (length_check name) ≡ false
      ok = unfold length_check in ground arith

  -- Of an initialised client, with a network that brings the server's response after any number of
  -- lost rounds, MFS_Write returns what write_server returns, and MFS_Read what read_server returns
  -- and, unless that is negative, its block.
  pub transfer-served :
      (inum : Word) (buffer : List Byte) (block : Word)
      → (mfs_write c (served l s lost) send0 receive0 inum buffer block
          ≡ done (write_server inum buffer block l.write_node s).0)
        × (let (rc, got, _) = read_server inum l.response.buffer block l.read s in
            mfs_read c (served l s lost) send0 receive0 inum buffer block
            ≡ done (rc, if is_neg rc then buffer else got))
  unfolding mfs_write mfs_read handle
  transfer-served inum buffer block = (
    rw (ready, exchange-served l s lost _ receive0 minus_one (λ r. r.inum) h),
    rw (
      ready,
      exchange-served {A = Word × List Byte} l s lost _ receive0 (minus_one, buffer)
          (λ r. (r.inum, if is_neg r.inum then buffer else r.buffer)) h,
    ),
  )
