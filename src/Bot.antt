-- ===== src/Bot.antt =====
-- lib/irccd/irccd.c: the bot's registries and its dispatch.
pub mod Rules
pub mod Registry
pub mod Dispatch
