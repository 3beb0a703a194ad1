-- ===== src/Tests.antt =====
-- Runs of the model, and the theorems at concrete inputs.
mod Basics
mod Streams
mod Lines
mod Engines
mod Database
mod Command
mod All
mod Servers
mod Daemons
mod Clients
mod Pipeline
mod Files
mod Threads
