-- ===== src/Tests.antt =====
-- Examples: concrete inputs on which the theorems apply.
mod Numbers
mod Maps
mod Peers
mod Swarm
mod Recovery
mod Zones
mod Fleet
mod Network
mod Votes
mod Rounds
