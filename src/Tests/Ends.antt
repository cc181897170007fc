-- ===== src/Tests/Ends.antt =====
-- A payment of Alice to Bob, from her node to the contract that pays it out.
use algorand_state_channels.Base.{◌≡◌, refl, true, codes, bytes_eq, some, [], ◌∷◌, ◌++◌, arith}
use algorand_state_channels.Payment.Calls.{Submission, finalize_close_channel}
use algorand_state_channels.Server.State.{Server, OffChainState}
use algorand_state_channels.Server.Action.{ok}
use algorand_state_channels.Server.GlobalState.{log_state}
use algorand_state_channels.Server.Peer.{process_request}
use algorand_state_channels.Server.Rpc.{pay, pay_request_of, initiate_close}
use algorand_state_channels.Contract.State.{Channel}
use algorand_state_channels.Contract.Group.{run_submission}
use algorand_state_channels.Contract.Agreement.{with_state, closing_by, payouts_of}
use algorand_state_channels.Contract.Paid.{Closes, paid_closing_pays_out}
use algorand_state_channels.Tests.Nodes.{
  sample_sdk, alice, bob, channel_info, paid_once, alice_node, bob_node, alone, shared,
}
use algorand_state_channels.Tests.Payments.{alice_world, paid_balances-IsPayment}
use algorand_state_channels.Tests.Requests.{bob_node-IsWellFormed}
use algorand_state_channels.Tests.Chains.{chain, same_crypto, funded, funded_parties}

funded-Closes :
    Closes sample_sdk chain funded alice_node bob_node
      (channel_info (codes "10.0.0.2"))
      600_000
      400_000
funded-Closes = record {
  parties = funded_parties;
  same_crypto = same_crypto;
  same_app = refl;
  whole = refl;
  deposit_word = omega arith;
  timeout_word = omega arith;
  small_fee = omega arith;
}

abbrev started : Channel
started = closing_by sample_sdk chain bob (with_state 595_000 405_000 2000 funded)

paid_closing_pays_out_example :
    (st : OffChainState) × (b' b'' : Server) × (closing : Submission) × (pay alice_world bob.address
        5000 alice_node
      ≡ (ok tt, log_state bob.address st alice_node))
    × ((process_request alone
          (codes "10.0.0.1")
          (pay_request_of alice.address st.alice_balance st.bob_balance st.timestamp
            st.alice_signature)
          bob_node).1
        ≡ b')
    × (initiate_close alice.address b' ≡ (ok tt, b''))
    × (b''.submitted ≡ b'.submitted ++ closing ∷ [])
    × (run_submission sample_sdk chain closing funded ≡ some (started, []))
    × (run_submission sample_sdk
          (record chain { round = 1051 })
          (finalize_close_channel bob alice.address 7)
          started
        ≡ some (started, payouts_of chain 595_000 405_000 funded))
unfolding bytes_eq
paid_closing_pays_out_example =
    paid_closing_pays_out alice_world alone alice_node bob_node (channel_info (codes "10.0.0.2"))
      (channel_info (codes "10.0.0.1")) paid_once paid_once 5000 (codes "10.0.0.1") refl (λ r. refl)
      shared refl (paid_balances-IsPayment true (codes "10.0.0.1")) chain funded funded-Closes
      bob_node-IsWellFormed (omega arith) (omega arith) 1051 (omega arith)
