-- ===== src/Tests.antt =====
-- Runs on small inputs, and the theorems at concrete inputs.
mod Concrete
mod Tables
mod Trees
mod Links
mod Commands
mod Frames
mod Publishing
mod Hashes
mod Counters
mod HashCommands
mod TwoNodes
mod OneKey
mod SortedSets
mod Connections
