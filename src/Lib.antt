-- ===== src/Lib.antt =====
-- Verification of gst-playd, the GStreamer playback daemon.
--
-- The daemon binds two ZeroMQ sockets. On the server socket it receives one-line commands such as
-- "PLAY uri", which the parser hands to the plugin that registered the word, and it sends one reply
-- to each. On the other it publishes events. A timer of the GLib main loop polls the server socket
-- four times a second. The same executable is the client that sends one command, and the listener
-- that prints the events.
--
-- Which file is about which part:
--
--   Uuencode, Uuencode/*        src/uuencode.c: base64 and uuencode, to a buffer and from a stream
--   Parser, Parser/*            src/parser.c, src/parser.h: plugins, their messages, the dispatch
--   Utility, Utility/*          src/utility.c: text of a hash table, request and reply
--   GstUtil, GstUtil/*          src/gst-util.c: GStreamer tags as a hash table
--   Pubsub                      src/pubsub.c: the socket of the events
--   Operations, Operations/Ping, Operations/Control
--                               src/op_services.h, src/operations/ping.c, src/operations/control.c
--   Operations/Play, Operations/Play/*
--                               src/operations/play.c: sources, PLAY, STOP, TAGS, DUMPGRAPH
--   Daemon, Daemon/*            src/gst_playd.c: messages, sockets, start, main loop, end
--   Host, Host/*                what is outside: the calls of the libraries, and the actions on the
--                               world
--   Glib, Glib/*                the two parts of GLib that the source relies on by their meaning:
--                               a hash table and the regular expression of the parser
--   Base, Base/*                bytes, C strings, decimal numbers, lists, tests
--   Examples, Examples/*        the properties at concrete inputs
--
-- How the code is modelled. A C function on memory is a function on lists of bytes, with no result
-- where it would read or write out of range. A function that calls a library or changes the state is
-- an action: a function of the world, which holds the calls made so far, should_quit, the events
-- socket and the playback context. An action has no result where the process does not go on: after
-- g_error, or once memory was used out of range. The host chooses the result of each call from the
-- calls before it, so a theorem about any host holds whatever ZeroMQ and GStreamer do. A plugin's
-- void pointer is one of three values, and the parser is used with the process, which is a world or
-- has aborted. A pointer to a function is the function. Memory that is freed is left as a value.
--
-- Parameters. A hash table is a record of operations and laws (Glib/HashTable), filled by an
-- association list; the order of its entries is not fixed. A regular expression is an interface
-- (Glib/Regex) which says what the one pattern of the source matches, filled by a backtracking
-- matcher. The printing of doubles, dates and pointers and the string hash are parameters.
--
-- Loops and fuel. The loops of the encoder and of the decoders recurse on fuel: the length of the
-- text and one more is enough for each, since every round consumes a character. The loop of
-- read_base64 takes its fuel as an argument, since it need not end. The loop of a tick has one more
-- round than there are messages, since every round that goes on has received one. What comes in
-- while a tick runs counts as there before it. All other loops recurse on a list.
--
-- Not modelled: warnings, the set-up of the option parser and of the threads, and the release of
-- memory. GLib calls the timer, the signal handlers and the watch of the bus one at a time, so a main
-- loop is a list of events. GStreamer calls the handlers of new pads in threads of its own: they are
-- modelled, but no run calls them. A port is the bit pattern of an `int`; where the sum with 10000 or
-- 10001 overflows, which C leaves open, it is taken to wrap around.
pub mod Base
pub mod Glib
pub mod Host
pub mod Daemon
pub mod Operations
pub mod Pubsub
pub mod Parser
pub mod GstUtil
pub mod Utility
pub mod Uuencode
mod Examples
