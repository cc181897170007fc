-- ===== src/Payment.antt =====
-- payment/operation.go: the signed messages, the signatures and the transactions.
pub mod Sdk
pub mod Message
pub mod Signing
pub mod Calls
pub mod Sandbox
