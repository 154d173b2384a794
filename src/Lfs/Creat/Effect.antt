-- ===== src/Lfs/Creat/Effect.antt =====
-- What creat_server (linux/lfs.c) writes for a regular file: the parent again, the directory block
-- with its new entry, and the new inode at the end of the log.
use p.Prelude.{
  ℕ, zero, suc, ◌+◌, ◌*◌, ◌≤◌, ◌<◌, ◌≡◌, ◌≢◌, refl, sym, ap, subst, ◌∙◌, inr, List, [], ◌∷◌, ◌++◌,
  ◌==◌, if◌then◌else◌, All, All-set, length, length-set, length-append, get_or, max, arith,
}
use p.Word.{Word, Byte, IsWord, minus_one, add32, word_bytes}
use p.CString.{length-strcpy}
use p.Disk.{splice, write, bytes_at}
use p.Disk.Regions.{bytes_at-splice_ne, bytes_at-splice_self, bytes_at-splice_front}
use p.Struct.{Inode, IsInode, Directory, IsDirectory, IsName, encode_inode, encode_dir}
use p.Struct.Roundtrip.{length-encode_inode, length-encode_dir}
use p.Lfs.State.{Lfs, seek, put, update_cr, set_entry}
use p.Lfs.State.Inodes.{IsBlock, seek_block_lem, InodeOn, BlockOn}
use p.Lfs.State.Checkpoint.{update_cr-content, update_cr-imap, update_cr-size}
use p.Lfs.Transfer.Write.{apart_block}
use p.Lfs.Creat.{new_inode, make_inode, write_entry}

pub All-get_or {ℓ κ} :
    {A : Type ℓ} (P : A → Type κ) (xs : List A) (i : ℕ) (d : A)
    → i < length xs
    → All P xs
    → P (get_or xs i d)
All-get_or P [] i d h all = elim h [ ]
All-get_or P (x ∷ xs) zero d h all = all.0
All-get_or P (x ∷ xs) (suc i) d h all = All-get_or P xs i d (omega arith) all.1

pub set_entry-IsDirectory :
    (d : Directory) (e : ℕ) (i : Word) (name : List Byte)
    → IsDirectory d
    → IsWord i
    → e < 128
    → IsDirectory (set_entry d e i name)
set_entry-IsDirectory d e i name v w h = record {
  inums = All-set IsWord d.inums e i w v.inums;
  names =
      All-set IsName d.names e _
        (length-strcpy _ name ∙ All-get_or IsName d.names e [] (omega (arith, v.names_len)) v.names)
        v.names;
  inums_len = length-set d.inums e i ∙ v.inums_len;
  names_len = length-set d.names e _ ∙ v.names_len;
}

module _ (s : Lfs) (p : Word) (n : Inode) (on : InodeOn s p n) (behind : List Byte)
    (rest : length behind ≡ 3972) (at : Word) (d : Directory) (e : ℕ) (inum : Word)
    (name : List Byte) (names : List (List Byte)) (v : IsDirectory d) (slot : e < 128)
    (number : inum < 4096) (free : s.imap inum ≡ minus_one) (block : IsBlock at)
    (log_end : IsBlock s.next_block) (apart : at ≢ s.imap p) (fresh_p : s.next_block ≢ s.imap p)
    (fresh_at : s.next_block ≢ at) where
  abbrev pub ip : Word
  ip = s.imap p

  abbrev pub nb : Word
  nb = s.next_block

  abbrev pub d' : Directory
  d' = set_entry d e inum name

  abbrev pub after : Lfs
  after = (make_inode inum p 1 names (write_entry n behind p at d e inum name s)).1

  pub d'-IsDirectory : IsDirectory d'
  d'-IsDirectory = set_entry-IsDirectory d e inum name v (omega arith) slot

  new-IsInode : IsInode (new_inode inum 1)
  new-IsInode = omega arith

  abbrev pub blocks : ℕ → Byte
  blocks =
      splice
        (splice (splice s.file.content (ip * 4096) (encode_inode n ++ behind)) (at * 4096)
          (encode_dir d'))
        (nb * 4096) (encode_inode (new_inode inum 1))

  abbrev pub before_cr : Lfs
  before_cr = record {
    imap = λ j. if j == inum then nb else s.imap j;
    next_block = add32 nb 1;
    file = record {
      content = blocks;
      size =
          max
            (max (max s.file.size (ip * 4096 + length (encode_inode n ++ behind)))
              (at * 4096 + length (encode_dir d')))
            (nb * 4096 + length (encode_inode (new_inode inum 1)));
      pos = nb * 4096 + length (encode_inode (new_inode inum 1));
    };
  }

  pub after_lem :
      make_inode inum p 1 names (write_entry n behind p at d e inum name s)
      ≡ (0, update_cr inum before_cr)
  unfolding make_inode write_entry put write seek
  after_lem =
      rw
        (seek_block_lem ip s on.block.1, seek_block_lem at _ block.1, seek_block_lem nb _ log_end.1)

  length-parent : length (encode_inode n ++ behind) ≡ 4096
  length-parent =
      omega (arith, length-append (encode_inode n) behind, length-encode_inode n on.fields, rest)

  length-dir : length (encode_dir d') ≡ 4096
  length-dir = length-encode_dir d' d'-IsDirectory

  length-new : length (encode_inode (new_inode inum 1)) ≡ 124
  length-new = length-encode_inode (new_inode inum 1) new-IsInode

  abbrev pub t : Lfs
  t = update_cr inum before_cr

  -- A region above the checkpoint keeps its bytes under update_CR.
  above : (q k : ℕ) → 24576 ≤ q → bytes_at t.file.content q k ≡ bytes_at blocks q k
  unfolding word_bytes
  above q k h =
      ap (λ c. bytes_at c q k) (update_cr-content inum before_cr number)
      ∙ bytes_at-splice_ne _ 16384 _ q k (inr (omega arith))
      ∙ bytes_at-splice_ne _ (inum * 4) _ q k (inr (omega arith))

  size :
      (s.file.size ≤ t.file.size)
      × (at * 4096 + 4096 ≤ t.file.size)
      × (nb * 4096 + 124 ≤ t.file.size)
  size = omega (arith, update_cr-size inum before_cr, length-dir, length-new)

  -- Every other block of the log keeps its bytes.
  pub after-BlockOn :
      (b : Word) (x : List Byte)
      → IsBlock b × (b ≢ ip) × (b ≢ at) × (b ≢ nb)
      → BlockOn s b x
      → BlockOn t b x
  after-BlockOn b x h o = record {
    block = o.block;
    stored =
        above (b * 4096) 4096 (omega (arith, h.0))
        ∙ bytes_at-splice_ne _ (nb * 4096) _ (b * 4096) 4096
            (rw length-new (apart_block b nb 4096 124 h.3 (omega arith) (omega arith)))
        ∙ bytes_at-splice_ne _ (at * 4096) _ (b * 4096) 4096
            (rw length-dir (apart_block b at 4096 4096 h.2 (omega arith) (omega arith)))
        ∙ bytes_at-splice_ne _ (ip * 4096) _ (b * 4096) 4096
            (rw length-parent (apart_block b ip 4096 4096 h.1 (omega arith) (omega arith)))
        ∙ o.stored;
    inside = omega (arith, o.inside, size);
  }

  -- The directory block holds the new entry.
  pub after-entry : BlockOn t at (encode_dir d')
  after-entry = record {
    block = block.1;
    stored =
        above (at * 4096) 4096 (omega (arith, block))
        ∙ bytes_at-splice_ne _ (nb * 4096) _ (at * 4096) 4096 (
            rw length-new
              (apart_block at nb 4096 124 (λ q. fresh_at (sym q)) (omega arith) (omega arith)))
        ∙ ap (bytes_at _ (at * 4096)) (sym length-dir)
        ∙ bytes_at-splice_self _ (at * 4096) (encode_dir d');
    inside = size.1;
  }

  imap_p : t.imap p ≡ ip
  imap_p = rw (update_cr-imap inum before_cr) (ground (arith, on.block.0, on.block.1, free))

  imap_new : t.imap inum ≡ nb
  imap_new = rw (update_cr-imap inum before_cr) (ground arith)

  -- The parent's inode is as it was.
  pub after-parent : InodeOn t p n
  after-parent = record {
    number = on.number;
    block = rw imap_p on.block;
    stored = rw imap_p (
        above (ip * 4096) 124 (omega (arith, on.block))
        ∙ bytes_at-splice_ne _ (nb * 4096) _ (ip * 4096) 124 (
            rw length-new
              (apart_block ip nb 124 124 (λ q. fresh_p (sym q)) (omega arith) (omega arith)))
        ∙ bytes_at-splice_ne _ (at * 4096) _ (ip * 4096) 124 (
            rw length-dir
              (apart_block ip at 124 4096 (λ q. apart (sym q)) (omega arith) (omega arith)))
        ∙ ap (bytes_at _ (ip * 4096)) (sym (length-encode_inode n on.fields))
        ∙ bytes_at-splice_front s.file.content (ip * 4096) (encode_inode n) behind);
    fields = on.fields;
    inside = rw imap_p (omega (arith, on.inside, size));
  }

  -- The new inode is an empty regular file at the end of the log.
  pub after-new : InodeOn t inum (new_inode inum 1)
  after-new = record {
    number = number;
    block = rw imap_new log_end;
    stored = rw imap_new (
        above (nb * 4096) 124 (omega (arith, log_end))
        ∙ ap (bytes_at _ (nb * 4096)) (sym length-new)
        ∙ bytes_at-splice_self _ (nb * 4096) (encode_inode (new_inode inum 1)));
    fields = new-IsInode;
    inside = rw imap_new (omega (arith, size));
  }

  -- All of it, of the result that the code computes.
  abbrev pub IsMade : Word × Lfs → Type 0
  IsMade r =
      (r.0 ≡ 0)
      × InodeOn r.1 p n
      × InodeOn r.1 inum (new_inode inum 1)
      × BlockOn r.1 at (encode_dir d')
      × ((b : Word) (x : List Byte)
          → IsBlock b × (b ≢ ip) × (b ≢ at) × (b ≢ nb)
          → BlockOn s b x
          → BlockOn r.1 b x)

  pub make_inode-IsMade :
      IsMade (make_inode inum p 1 names (write_entry n behind p at d e inum name s))
  make_inode-IsMade =
      subst IsMade (sym after_lem) (refl, after-parent, after-new, after-entry, after-BlockOn)
