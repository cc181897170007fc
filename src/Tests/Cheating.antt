-- ===== src/Tests/Cheating.antt =====
-- Alice closes with the state before her last payment, and Bob's watchtower disputes.
use algorand_state_channels.Base.{
  ◌≡◌, inl, refl, codes, bytes_eq, bytes_has_eq, some, [], ◌∷◌, ◌++◌, arith,
}
use algorand_state_channels.Base.Dict.{lookup}
use algorand_state_channels.Payment.Calls.{
  Submission, initiate_close_channel, finalize_close_channel,
}
use algorand_state_channels.Server.State.{Server, OffChainState, PaymentLog}
use algorand_state_channels.Server.Action.{ok}
use algorand_state_channels.Server.Log.{get_highest_balance_off_chain_state}
use algorand_state_channels.Server.Rpc.{try_to_cheat}
use algorand_state_channels.Server.Watchtower.{watch_channel}
use algorand_state_channels.Contract.Group.{run_submission}
use algorand_state_channels.Contract.Agreement.{with_state, closing_by, payouts_of}
use algorand_state_channels.Contract.Disputes.{IsIgnored}
use algorand_state_channels.Contract.Cheating.{CanCheat, cheating_pays}
use algorand_state_channels.Tests.Nodes.{sample_sdk, alice, bob, channel_info, alice_node}
use algorand_state_channels.Tests.Channels.{closing_world}
use algorand_state_channels.Tests.Chains.{
  chain, same_crypto, binding, signature_of, signature_of-verifies, funded, funded_parties,
  funded-Divides,
}
use algorand_state_channels.Tests.Settlements.{signed_twice, signed_node, signed-IsClosing}

abbrev signed_once : OffChainState
signed_once = record signed_twice {
  timestamp = 1000;
  alice_balance = 600_000;
  bob_balance = 400_000;
  alice_signature = signature_of alice.address 600_000 400_000 1000;
  bob_signature = signature_of bob.address 600_000 400_000 1000;
}

abbrev both_log : PaymentLog
both_log = (2000, signed_twice) ∷ (1000, signed_once) ∷ []

abbrev cheater : Server
cheater = record alice_node { offchain_states_log = (bob.address, both_log) ∷ [] }

cheater-CanCheat : CanCheat cheater bob.address (channel_info (codes "10.0.0.2")) signed_once
unfolding lookup bytes_eq get_highest_balance_off_chain_state
cheater-CanCheat = record {
  log = both_log;
  channel = refl;
  logged = refl;
  chosen = refl;
  enough = refl;
}

cheating_pays_example :
    let cheat =
      initiate_close_channel alice 4161 7 600_000 400_000 1000 signed_once.alice_signature
        signed_once.bob_signature in
    let cheated = closing_by sample_sdk chain alice (with_state 600_000 400_000 1000 funded) in
    (s' : Server) × (t' : Server) × (dispute : Submission) × (try_to_cheat bob.address cheater
      ≡ (ok tt, s'))
    × (s'.submitted ≡ [] ++ cheat ∷ [])
    × (run_submission sample_sdk chain cheat funded ≡ some (cheated, []))
    × (watch_channel closing_world alice.address (channel_info (codes "10.0.0.1")) signed_node
        ≡ (ok tt, t'))
    × (t'.submitted ≡ [] ++ dispute ∷ [])
    × IsIgnored (run_submission sample_sdk (record chain { round = 60 }) dispute cheated) cheated
    × (run_submission sample_sdk
          (record chain { round = 1051 })
          (finalize_close_channel alice bob.address 7)
          cheated
        ≡ some (cheated, payouts_of chain 600_000 400_000 funded))
unfolding bytes_eq
cheating_pays_example =
    cheating_pays closing_world chain funded alice.address bob.address same_crypto binding
      funded_parties cheater bob.address (channel_info (codes "10.0.0.2")) signed_once
      cheater-CanCheat (inl refl) refl funded-Divides (omega arith)
      (signature_of-verifies alice.address 600_000 400_000 1000)
      (signature_of-verifies bob.address 600_000 400_000 1000) signed_node alice.address
      (channel_info (codes "10.0.0.1")) signed_twice refl signed-IsClosing refl
      (signature_of-verifies alice.address 500_000 500_000 2000) (omega arith) (omega arith) 60 1051
      (omega arith)
