-- ===== src/Tests.antt =====
-- Tests, and the theorems at concrete data.
mod Memory
mod Redis
mod Sheet
mod Reads
mod Writes
mod Catalogs
mod Owned
mod Remotes
mod Registrations
mod Checks
mod Servers
mod Workers
mod Borders
mod Interleavings
