-- ===== src/Tests.antt =====
-- Concrete runs of the models, and the theorems at concrete inputs.
mod Toy
mod Attestations
mod Escrows
mod Accumulators
mod Spends
mod Trees
mod Nodes
mod Messages
mod Texts
mod Listings
mod Jobs
mod Machine
mod Scripts
mod Anchors
