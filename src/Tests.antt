-- ===== src/Tests.antt =====
-- Concrete nodes and channels, and the theorems at them.
mod Nodes
mod Messages
mod Payments
mod Requests
mod Channels
mod Rounds
mod Closings
mod Runs
mod Processes
mod Chains
mod Settlements
mod Cheating
mod Contracts
mod Reports
mod Ends
mod Views
mod Commands
