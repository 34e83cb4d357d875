-- ===== src/Zk.antt =====
-- krep-zk: the accumulators, and their leaves derived from chain data.
pub mod Smt
pub mod Scan
pub mod Merkle
