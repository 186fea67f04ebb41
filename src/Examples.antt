-- ===== src/Examples.antt =====
-- The theorems at concrete inputs, on the computable provider of Toy.antt, and tests of the definitions
-- on values that the formats fix.
mod Ratchets
mod Managers
mod Cells
mod Tables
mod Routers
mod Records
mod Messages
mod Inboxes
mod Outboxes
