-- ===== src/Examples.antt =====
-- The properties at concrete inputs, one module for each part of the program.
mod Uuencode
mod Stream
mod Parser
mod TestHost
mod Play
mod Players
mod Daemon
mod Tables
mod Sockets
mod Subscriber
mod Run
mod Events
mod Answered
mod Serves
mod Listens
mod Playing
mod Asked
