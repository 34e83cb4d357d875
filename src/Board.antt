-- ===== src/Board.antt =====
-- krep-board: encrypted messages between the parties of a job, signed events and listings.
pub mod Nip44
pub mod Event
pub mod Offer
pub mod Job
