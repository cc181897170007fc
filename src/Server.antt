-- ===== src/Server.antt =====
-- The payment channel node: its state and the actions over it (server.go), the peer requests
-- (handleConnection), the RPC methods (rpcserver.go) and the watchtower (watchtower.go).
pub mod State
pub mod Action
pub mod Log
pub mod GlobalState
pub mod Peer
pub mod Watchtower
pub mod Start
pub mod Rpc
pub mod Invariant
pub mod Steps
pub mod Growth
pub mod Opening
pub mod Reach
pub mod Views
