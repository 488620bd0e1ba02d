-- ===== src/Ctl.antt =====
-- irccdctl/irccdctl.c: the client of the control connection.
pub mod Show
pub mod Requests
pub mod Sent
pub mod Talk
pub mod Edits
pub mod Adds
pub mod Listing
