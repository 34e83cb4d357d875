-- ===== src/Core/Kaspad.antt =====
-- The verifier over a kaspad node (krep-core/src/kaspad.rs): the payload rule and, in the children,
-- the node's answers, the scan of the virtual chain and the search for the spending transaction.
pub mod Node
pub mod Scan
pub mod Spend
pub mod Anchored
pub mod Slots
use k_rep.Base.{ℕ, Bool, List, any, beq_bytes, chunks_exact}

unfoldable pub payload_commits : List ℕ → List ℕ → Bool
payload_commits payload id = any (λ w. beq_bytes w id) (chunks_exact 32 payload)
