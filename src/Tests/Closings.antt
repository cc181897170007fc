-- ===== src/Tests/Closings.antt =====
-- The closing of a channel, at concrete states.
use algorand_state_channels.Base.{◌≡◌, refl, true, Bytes, codes, bytes_eq, bytes_has_eq, none}
use algorand_state_channels.Payment.Signing.{verify_close}
use algorand_state_channels.Server.State.{World}
use algorand_state_channels.Server.Action.{ok}
use algorand_state_channels.Server.Peer.{process_request}
use algorand_state_channels.Server.Rpc.{cooperative_close}
use algorand_state_channels.Server.Rpc.Transfer.{exchange_of}
use algorand_state_channels.Server.Rpc.Closing.{closed_together}
use algorand_state_channels.Server.Rpc.Closing.Together.{cooperative_close_agrees}
use algorand_state_channels.Tests.Nodes.{
  sample_sdk, alice, bob, channel_info, paid_once, alice_node, bob_node, world, alone, shared,
}

-- The world of Alice's node, whose peer is Bob's node.
abbrev alice_world : World
alice_world =
    world (λ ip r. exchange_of (process_request alone (codes "10.0.0.1") r bob_node).0) none

cooperative_close_agrees_example :
    (alice_signature bob_signature : Bytes) × (cooperative_close alice_world bob.address alice_node
      ≡ (
        ok tt,
        closed_together bob.address
            (channel_info (codes "10.0.0.2"))
            paid_once
            alice_signature
            bob_signature
            alice_node,
      ))
    × (verify_close sample_sdk 7 600_000 400_000 4161 alice_signature alice.address 1000 ≡ true)
    × (verify_close sample_sdk 7 600_000 400_000 4161 bob_signature bob.address 1000 ≡ true)
unfolding bytes_eq
cooperative_close_agrees_example =
    cooperative_close_agrees alice_world alone alice_node bob_node (channel_info (codes "10.0.0.2"))
      (channel_info (codes "10.0.0.1")) paid_once paid_once (codes "10.0.0.1") refl (λ r. refl)
      shared refl refl
