-- ===== src/Tests.antt =====
-- Runs at concrete inputs, and the theorems applied to them.
mod Data
mod Network
mod Raws
mod Routing
mod Multilines
mod Syslogs
mod Pumps
mod Stores
mod Starts
mod Registries
mod Waits
mod Entries
mod Lokis
mod Streams
mod Apis
mod Events
mod Trusts
mod Names
mod Flows
mod Fields
mod Restarts
mod Linked
