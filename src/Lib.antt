-- ===== src/Lib.antt =====
-- irccd, an IRC bot: the core of its library lib/irccd, parts of its daemon irccd, and its client
-- irccdctl.
--
-- The daemon keeps one connection for each IRC server. A connection dials, reads and writes bytes,
-- cuts the input into lines and parses each into a message. A server handles its messages: it
-- tracks the channels and the users on them, and dispatches events. The bot gives an event to its
-- hooks and to those of its plugins that its rules allow; hooks and templates use text
-- substitution. The daemon takes commands on control connections, which irccdctl sends, and tells
-- the events to the connections that watch.
--
-- Rule models lib/irccd/rule.c: a rule is a record of criteria, each NULL (`none`) or a list of
-- strings; `irc_rule_match` and `irc_rule_matchlist` answer `none` where they read a NULL string.
-- Bot.Rules, Bot.Registry and Bot.Dispatch model lib/irccd/irccd.c: the ordered list of rules
-- (`irc_bot_rule_*`), the registries of servers, plugins and hooks (`irc_bot_*_add`, `_get` and
-- `_remove`), and `irc_bot_dispatch`, whose result is the calls that it makes. Conn models
-- lib/irccd/conn.c. Conn.Message is the parser `irc__conn_msg_*`, Conn.Input the input buffer
-- (`conn_recv`, `conn_next` and the producer), Conn.Output the output buffer (`irc__conn_push`,
-- `conn_send`, `irc_server_send_va`), Conn.Socket the reads, the writes and the watcher over TCP
-- (`conn_tcp_*`, `conn_wait`), and Conn.Dial the endpoints and the states of the connection
-- (`conn_dial`, `conn_connect`, `conn_io_entry`, `irc__conn_ready`). Channel models
-- lib/irccd/channel.c, the users of a channel and their modes. Event has the events of
-- lib/irccd/event.h, and Event.Text the text `irc_event_str` of lib/irccd/event.c. Hook models the
-- arguments of lib/irccd/hook.c. Server models lib/irccd/server.c: its channels and modes,
-- Server.Prefixes the nickname prefixes, Server.Handlers the handlers of messages
-- `irc_server_handle_*`, with PRIVMSG and its CTCP requests in Server.Handlers.Talk, and
-- Server.Requests the texts of the requests that the bot sends. Server.Handlers.Table is the table
-- of handlers with `irc_server_handle` and the loop `irc_server_consumer_entry`, which waits for
-- the end of a whois. Peer models irccd/peer.c: Peer.Rules has RULE-ADD and RULE-EDIT, Peer.Order
-- the other commands on rules, Peer.Servers the requests to a server, Peer.Lists the hooks, the
-- plugins and the lists, and Peer.Table the table of commands, `find`, `invoke` and the lines of a
-- peer. Peer.Numbers reads and prints numbers as strtonum, sscanf and fprintf do. Ctl models
-- irccdctl/irccdctl.c: Ctl.Requests what its commands send, Ctl.Show what `watch` prints, and
-- Ctl.Listing the lines of an answer and the list of rules. Bsearch is bsearch over a table of
-- names, which the daemon, the client and the server use. Conf.Lexer is the lexer `conf_lex_*` of
-- irccd/conf.c: the tokens that it yields are a list, with how it ends; Conf.Parser has the
-- sections of rules and hooks, `conf_parse_rule` and `conf_parse_hook`, and `conf_apply_rules`.
-- Util models `irc_util_split` of lib/irccd/util.c and `parse` of irccd/peer.c. Subst models
-- lib/irccd/subst.c, with the attributes and the output buffer in Subst.Attributes. Unicode models
-- irccd/unicode.c: the conversions at its end, the search of the tables in Unicode.Search, and the
-- classes `uni_is*` and the conversions `uni_to*` in Unicode.Classes, over Unicode.Tables, the
-- tables as they stand in the file. Base has the shared tests, lists, strings, bits and error
-- numbers, and Memory the reads that may fault. The modules below a model prove its theorems, and
-- Witness applies them to concrete inputs.
--
-- A string is the list of its bytes without the NUL, and a pointer that may be NULL is an
-- `Option`. A linked list is the list of its nodes from the head, and a write through a pointer
-- that a search returned is a write to the first node of that key. Numbers are natural numbers:
-- positions and lengths are bounded by the buffers, whose sizes are those of the source (8096 for
-- the input, 65536 for the output, 512 for a message), and the words of lib/irccd/server.c and
-- irccd/unicode.c stay below 2 ^ 32 by their masks. A handler that reads behind `args`, or through
-- NULL, gives `none`, and so does an operation on the list of rules whose assertion fails.
--
-- What is outside the repository, or decided at run time, is an argument: the bytes and errors
-- that a socket answers, the endpoints of a name, the result of loading a plugin, and for a
-- template the environment, the output of a command and the text of `strftime`, and for a CTCP
-- request the nickname of a mask, which a regular expression finds, and the time. For the commands
-- it is what a stream on a buffer holds when it is closed, the options that getopt finds, the search
-- of a plugin, the texts of the error numbers, and those commands that are not modelled.
--
-- Loops over lists are structural. Those over a text that is cut in larger pieces take the length
-- of the text as fuel, since every round takes a byte at least: the arguments of a message, the
-- lines of the input, the attributes, and the loop of `irc_subst`. The retry of a read takes fuel
-- for the number of interruptions, which nothing in the code bounds.
--
-- The searches by halving take the length of their table as fuel, since each round takes at least
-- the row in the middle, or halves what is left; the lines of a peer take the length of the input,
-- the lexer of the configuration that of its text, and a block of criteria the number of its
-- tokens.
--
-- Not modelled: TLS, name resolution, timers, the setters of a server, what a 005 announces beside
-- the prefixes, the details of a whois; of the control connections the options, paths, templates,
-- information and reload of plugins, and the commands that connect, disconnect and describe a
-- server; the sockets; the other sections of the configuration, the log, the loaders of plugins, the
-- JavaScript bindings, and the libraries in extern. Memory is not modelled but where a read or a
-- write leaves an array, or a pointer is NULL or not set.
pub mod Base
pub mod Rule
pub mod Bot
pub mod Unicode
pub mod Conn
pub mod Ctl
pub mod Channel
pub mod Event
pub mod Memory
pub mod Bsearch
pub mod Server
pub mod Util
pub mod Peer
pub mod Hook
pub mod Conf
pub mod Subst
pub mod Witness
