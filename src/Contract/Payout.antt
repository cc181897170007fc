-- ===== src/Contract/Payout.antt =====
-- A closing from its start to its end.
use algorand_state_channels.Base.{
  ℕ, ◌+◌, ◌<◌, ◌≤◌, ◌≡◌, ◌⊎◌, true, Bytes, bytes_eq, bytes_has_eq, nat_eq_iff, some, [], arith,
}
use algorand_state_channels.Base.Word.{IsWord}
use algorand_state_channels.Payment.Sdk.{Sdk, Account, Address}
use algorand_state_channels.Payment.Signing.{verify_state}
use algorand_state_channels.Payment.Calls.{initiate_close_channel, finalize_close_channel}
use algorand_state_channels.Contract.State.{Channel, Chain, minus}
use algorand_state_channels.Contract.Program.{
  close_account_to, on_finalize_channel_closing, on_call, dispatch, program,
}
use algorand_state_channels.Contract.Group.{run_submission, run_txns, run_txn, call_of}
use algorand_state_channels.Contract.Agreement.{
  SameCrypto, HasParties, Divides, with_state, closing_by, payouts_of,
}
use algorand_state_channels.Contract.Closing.{initiate_close_channel_runs}

-- The finalizing call of anybody, after the timeout.
pub finalize_close_channel_runs :
    (sdk : Sdk) (chain : Chain) (account : Account) (counterparty : Address) (ch : Channel)
    → ch.timeout < chain.round
    → chain.min_txn_fee ≤ ch.latest_alice_balance
    → chain.min_txn_fee ≤ ch.latest_bob_balance
    → run_submission sdk chain (finalize_close_channel account counterparty chain.application_id) ch
      ≡ some (ch, payouts_of chain ch.latest_alice_balance ch.latest_bob_balance ch)
unfolding run_submission run_txns run_txn finalize_close_channel call_of program on_call dispatch
    bytes_eq on_finalize_channel_closing close_account_to minus
finalize_close_channel_runs sdk chain account counterparty ch late fa fb =
    ground (arith, nat_eq_iff chain.application_id chain.application_id)

-- A party starts a closing with a state that both have signed, and finalizes it in a round after
-- the dispute window: the contract pays Bob and Alice their balances of that state, less a fee
-- each, and Alice what remains. The chain has the SDK's hash and signature check, the balances
-- have the deposit as their sum and are at least a fee, and deposit, timestamp and timeout are
-- uint64.
pub closing_pays_out :
    (sdk : Sdk) (chain : Chain) (ch : Channel) (alice_party bob_party : Address)
    (same : SameCrypto sdk chain) (parties : HasParties sdk ch alice_party bob_party)
    (alice bob timestamp : ℕ) (divides : Divides ch alice bob timestamp) (sa sb : Bytes)
    (account : Account)
    (party : (sdk.decode_address account.address ≡ ch.alice_address)
      ⊎ (sdk.decode_address account.address ≡ ch.bob_address))
    → IsWord (chain.round + ch.dispute_window)
    → verify_state sdk chain.application_id alice bob 4161 sa alice_party timestamp ≡ true
    → verify_state sdk chain.application_id alice bob 4161 sb bob_party timestamp ≡ true
    → chain.min_txn_fee ≤ alice
    → chain.min_txn_fee ≤ bob
    → (later : ℕ) → chain.round + ch.dispute_window < later
    → let started = closing_by sdk chain account (with_state alice bob timestamp ch) in
      (run_submission sdk chain
          (initiate_close_channel account 4161 chain.application_id alice bob timestamp sa sb)
          ch
        ≡ some (started, []))
      × (run_submission sdk
            (record chain { round = later })
            (finalize_close_channel account bob_party chain.application_id)
            started
          ≡ some (started, payouts_of chain alice bob ch))
closing_pays_out sdk chain ch alice_party bob_party same parties alice bob timestamp divides sa sb
      account party in_time va vb fa fb later late =
    (
      initiate_close_channel_runs sdk chain ch alice_party bob_party same parties alice bob
          timestamp divides sa sb account party in_time va vb,
      finalize_close_channel_runs sdk (record chain { round = later }) account bob_party
          (closing_by sdk chain account (with_state alice bob timestamp ch)) late fa fb,
    )
