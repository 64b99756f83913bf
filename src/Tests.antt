-- ===== src/Tests.antt =====
-- Concrete runs of the modelled code, and the theorems applied to concrete data.
mod Data
mod Records
mod Tables
mod Caches
mod Filters
mod Logs
mod Lookups
mod Ranges
mod Indexes
mod Files
mod Databases
mod Sessions
mod Crashes
mod Names
mod Environment
mod Clients
mod Layers
mod Cursors
