-- ===== src/Contract.antt =====
-- The payment contract, payment/payment_contract.py: the application that two nodes share on the
-- chain, and the groups of transactions that payment/operation.go sends to it.
pub mod State
pub mod Program
pub mod Group
pub mod Calls
pub mod Agreement
pub mod Closing
pub mod Disputes
pub mod Balance
pub mod Trace
pub mod Rules
pub mod Cheating
pub mod Funding
pub mod Opening
pub mod Payout
pub mod Nodes
pub mod Reading
pub mod Paid
