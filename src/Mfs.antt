-- ===== src/Mfs.antt =====
-- The file service over the network: packets (linux/mfs.h), the client library (linux/mfs.c and
-- linux/sendPacket.c) and the server's loop (linux/listenServer.c).
pub mod Packet
pub mod Send
pub mod Client
pub mod Listen
