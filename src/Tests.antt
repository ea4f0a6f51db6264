-- ===== src/Tests.antt =====
-- Runs of the model at concrete inputs, after the tests of the repository.
mod Buses
mod Sessions
mod Agents
mod Tasks
mod Nets
mod Retries
mod Tools
mod Teams
mod Configs
mod Replies
mod Remotes
mod Chunks
mod Calls
mod Servers
mod Streams
mod Grpcs
