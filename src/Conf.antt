-- ===== src/Conf.antt =====
-- irccd/conf.c: the reader of the configuration.
pub mod Lexer
pub mod Parser
