-- ===== src/Escrow.antt =====
-- krep-escrow: the escrow's payload state and its terms.
pub mod State
pub mod Terms
pub mod Machine
pub mod Script
pub mod Transactions
