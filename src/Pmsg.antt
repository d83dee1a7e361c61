-- ===== src/Pmsg.antt =====
-- The message client of pmsg/pmsgcli.c.
pub mod Frame
pub mod Connection
mod Tests
