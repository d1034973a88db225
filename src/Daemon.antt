-- ===== src/Daemon.antt =====
-- src/gst_playd.c: the messages that the daemon receives, its sockets, its start and its main loop,
-- and what is proved of them, in modules of their own.
pub mod Messages
pub mod Sockets
pub mod Main
pub mod Loop
pub mod Release
pub mod Received
pub mod Overheard
pub mod Listens
pub mod Replies
pub mod Commands
pub mod Registered
pub mod Quit
pub mod Listener
pub mod Subscriber
pub mod Process
pub mod Client
pub mod Answered
pub mod Server
pub mod Events
pub mod Players
pub mod Playing
pub mod Entries
pub mod Kept
pub mod Asked
pub mod Texts
pub mod Serves
pub mod Exits
pub mod Started
pub mod Run
pub mod Signal
