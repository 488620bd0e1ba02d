-- ===== src/Conn.antt =====
-- lib/irccd/conn.c: the connection to an IRC server.
pub mod Message
pub mod Input
pub mod Output
pub mod Socket
pub mod Dial
