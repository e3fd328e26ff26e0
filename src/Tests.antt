-- ===== src/Tests.antt =====
-- The theorems at concrete inputs, by the part they are about.
mod Ledger
mod AutoMode
mod Tasks
mod Models
mod Router
mod Rest
mod Selection
mod Registry
mod Aliases
mod Create
mod Auto
mod Planner
mod Estimate
mod Secrets
mod Management
