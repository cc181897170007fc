-- ===== src/Tests/Settlements.antt =====
-- Closings and disputes of concrete nodes, with the contract that runs them.
use algorand_state_channels.Base.{
  ◌≡◌, refl, codes, bytes_eq, bytes_has_eq, nat_has_eq, none, some, [], ◌∷◌, ◌++◌, arith,
}
use algorand_state_channels.Base.Word.{slt}
use algorand_state_channels.Base.Dict.{lookup}
use algorand_state_channels.Payment.Calls.{Submission}
use algorand_state_channels.Server.State.{Server, OffChainState, PaymentLog, World}
use algorand_state_channels.Server.Action.{ok}
use algorand_state_channels.Server.Log.{get_latest_off_chain_state}
use algorand_state_channels.Server.Peer.{process_request}
use algorand_state_channels.Server.Watchtower.{watch_channel}
use algorand_state_channels.Server.Watchtower.Disputes.{IsClosing}
use algorand_state_channels.Server.Rpc.{initiate_close, cooperative_close}
use algorand_state_channels.Server.Rpc.Transfer.{exchange_of}
use algorand_state_channels.Server.Rpc.Agreement.{Knows}
use algorand_state_channels.Contract.Group.{run_submission}
use algorand_state_channels.Contract.Agreement.{with_state, payouts_of}
use algorand_state_channels.Contract.Disputes.{IsIgnored}
use algorand_state_channels.Contract.Nodes.{
  dispute_has_no_effect, initiate_close-IsIgnored, cooperative_close_pays_out,
}
use algorand_state_channels.Tests.Nodes.{
  sample_sdk, alice, bob, channel_info, paid_once, alice_node, bob_node, world, alone, shared,
}
use algorand_state_channels.Tests.Channels.{
  closing_app, closing_world, closing_timeout, closing_alice, closing_bob,
}
use algorand_state_channels.Tests.Chains.{
  chain, same_crypto, binding, signature_of, signature_of-verifies, funded, funded_parties,
  funded-Divides,
}

-- Bob's node with a state that both have signed, and the same with Alice's signature in the place
-- of Bob's.
abbrev pub signed_twice : OffChainState
signed_twice = record {
  timestamp = 2000;
  alice_balance = 500_000;
  bob_balance = 500_000;
  alice_signature = signature_of alice.address 500_000 500_000 2000;
  bob_signature = signature_of bob.address 500_000 500_000 2000;
  algorand_port = 4161;
  app_id = 7;
}

abbrev signed_log : PaymentLog
signed_log = (1000, paid_once) ∷ (2000, signed_twice) ∷ []

signed_log_latest : get_latest_off_chain_state signed_log ≡ some signed_twice
unfolding get_latest_off_chain_state slt
signed_log_latest = refl

abbrev pub signed_node : Server
signed_node = record bob_node { offchain_states_log = (alice.address, signed_log) ∷ [] }

pub signed-IsClosing :
    IsClosing closing_world signed_node alice.address
      (channel_info (codes "10.0.0.1"))
      signed_twice
      600_000
      400_000
unfolding lookup bytes_eq
signed-IsClosing = record {
  app = closing_app;
  timeout = 30;
  log = signed_log;
  known_app = refl;
  has_timeout = closing_timeout;
  timeout_positive = omega arith;
  timeout_small = omega arith;
  logged = refl;
  last = signed_log_latest;
  has_alice = closing_alice;
  has_bob = closing_bob;
}

dispute_has_no_effect_example :
    (s' : Server) × (dispute : Submission) × (watch_channel closing_world alice.address
        (channel_info (codes "10.0.0.1"))
        signed_node
      ≡ (ok tt, s'))
    × (s'.submitted ≡ [] ++ dispute ∷ [])
    × (lookup alice.address s'.onchain_states ≡ none)
    × IsIgnored (run_submission sample_sdk chain dispute funded) funded
unfolding bytes_eq
dispute_has_no_effect_example =
    dispute_has_no_effect closing_world signed_node alice.address (channel_info (codes "10.0.0.1"))
      signed_twice 600_000 400_000 chain funded alice.address bob.address signed-IsClosing refl
      same_crypto binding funded_parties refl
      (signature_of-verifies alice.address 500_000 500_000 2000)

abbrev exchanged : OffChainState
exchanged = record signed_twice {
  alice_signature = signed_twice.bob_signature;
  bob_signature = signed_twice.alice_signature;
}

abbrev exchanged_node : Server
exchanged_node = record bob_node {
  offchain_states_log = (alice.address, (2000, exchanged) ∷ []) ∷ [];
}

exchanged_latest : get_latest_off_chain_state ((2000, exchanged) ∷ []) ≡ some exchanged
unfolding get_latest_off_chain_state slt
exchanged_latest = refl

exchanged-Knows : Knows exchanged_node alice.address (channel_info (codes "10.0.0.1")) exchanged
unfolding lookup bytes_eq
exchanged-Knows = record {
  log = (2000, exchanged) ∷ [];
  channel = refl;
  logged = refl;
  last = exchanged_latest;
}

initiate_close-IsIgnored_example :
    (s' : Server) × (closing : Submission) × (initiate_close alice.address exchanged_node
      ≡ (ok tt, s'))
    × (s'.submitted ≡ [] ++ closing ∷ [])
    × IsIgnored (run_submission sample_sdk chain closing funded) funded
initiate_close-IsIgnored_example =
    initiate_close-IsIgnored alone exchanged_node alice.address (channel_info (codes "10.0.0.1"))
      exchanged chain funded alice.address bob.address exchanged-Knows refl same_crypto binding
      funded_parties (λ e. ground arith) refl
      (signature_of-verifies bob.address 500_000 500_000 2000)

-- The world of Alice's node, whose peer is Bob's node.
abbrev alice_world : World
alice_world =
    world (λ ip r. exchange_of (process_request alone (codes "10.0.0.1") r bob_node).0) none

cooperative_close_pays_out_example :
    (s' : Server) × (closing : Submission) × (cooperative_close alice_world bob.address alice_node
      ≡ (ok tt, s'))
    × (s'.submitted ≡ [] ++ closing ∷ [])
    × (run_submission sample_sdk chain closing funded
        ≡ some (with_state 600_000 400_000 1000 funded, payouts_of chain 600_000 400_000 funded))
unfolding bytes_eq
cooperative_close_pays_out_example =
    cooperative_close_pays_out alice_world alone alice_node bob_node
      (channel_info (codes "10.0.0.2")) (channel_info (codes "10.0.0.1")) paid_once paid_once
      (codes "10.0.0.1") refl (λ r. refl) shared refl chain funded funded_parties same_crypto refl
      funded-Divides refl refl (omega arith) (omega arith)
