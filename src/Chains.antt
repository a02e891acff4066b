-- ===== src/Chains.antt =====
-- internal/pkg/chains/solana: RPC methods and their tables, node types, error codes.
pub mod Methods
pub mod NodeType
pub mod ErrorCodes
pub mod Slots
