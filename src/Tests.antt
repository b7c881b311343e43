-- ===== src/Tests.antt =====
-- Runs of the modelled code at concrete inputs.
mod Tree
mod Serials
mod Histories
mod Addresses
mod Hosts
mod Units
mod Walls
mod Domains
mod Entries
mod Spaces
mod Pings
mod Zones
mod Classes
mod Notified
mod MainZone
mod Files
