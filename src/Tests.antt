-- ===== src/Tests.antt =====
-- Runs on concrete input, and for every theorem with hypotheses an input where they hold.
mod Chunks
mod Streams
mod Race
mod Requests
mod Names
mod Connections
mod Bodies
mod Clients
mod Layers
mod Handles
mod Accepting
mod Sources
mod Served
mod Pool
mod Made
