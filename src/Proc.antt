-- ===== src/Proc.antt =====
-- The train's multicast services, pmsg/pmsgproc.c: the CRC, the commands sent, the messages received
-- and the round of the thread that does both.
pub mod Crc
pub mod Commands
pub mod Broadcast
pub mod Thread
mod Tests
