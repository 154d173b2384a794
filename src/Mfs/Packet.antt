-- ===== src/Mfs/Packet.antt =====
-- MFS_Packet_t and its methods (linux/mfs.h).
use p.Prelude.{List}
use p.Word.{Word, Byte}
use p.Struct.{Stat}

-- enum method
pub data Method : Type 0 where
  init lookup stat write read creat unlink shutdown response : Method

pub record Packet : Type 0 where
  pub method : Method
  pub stat : Stat
  pub inum : Word
  pub type : Word
  pub block : Word
  pub name : List Byte
  pub buffer : List Byte
