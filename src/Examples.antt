-- ===== src/Examples.antt =====
-- Tests of the definitions, and the theorems at concrete data.
pub mod Data
pub mod Maths
pub mod Fees
pub mod Arrays
pub mod Swaps
pub mod Quotes
pub mod Rebalances
pub mod Tokens
pub mod Ranges
pub mod Processing
pub mod Powers
pub mod Rewards
pub mod Claiming
pub mod Fractions
pub mod Weights
pub mod Deposits
