-- ===== src/Contract/Nodes.antt =====
-- The operations of a node together with the contract that runs what they submit.
use algorand_state_channels.Base.{
  ℕ, ◌≤◌, ◌≡◌, ◌≢◌, ◌⊎◌, inl, inr, refl, ap, sym, ◌∙◌, true, false, Bytes, bytes_eq_iff,
  bytes_has_eq, none, some, [], ◌∷◌, ◌++◌, arith, if◌then◌else◌, leb, Bool-cases,
}
use algorand_state_channels.Base.Dict.{lookup, lookup-erase_self}
use algorand_state_channels.Payment.Sdk.{Address}
use algorand_state_channels.Payment.Signing.{verify_state}
use algorand_state_channels.Payment.Calls.{
  Submission, initiate_close_channel, cooperative_close_channel, raise_dispute,
}
use algorand_state_channels.Server.State.{
  Server, PaymentChannelInfo, OffChainState, P2PRequest, World,
}
use algorand_state_channels.Server.Action.{ok}
use algorand_state_channels.Server.Log.{balance_of}
use algorand_state_channels.Server.Peer.{is_alice, process_request}
use algorand_state_channels.Server.Watchtower.{watch_channel, forget_channel}
use algorand_state_channels.Server.Watchtower.Disputes.{IsClosing, disputed, watch_channel_closing}
use algorand_state_channels.Server.Rpc.{can_close, initiate_close, cooperative_close}
use algorand_state_channels.Server.Rpc.Transfer.{exchange_of}
use algorand_state_channels.Server.Rpc.Agreement.{Knows, Shares}
use algorand_state_channels.Server.Rpc.Closing.{
  closing_sent, closed_together, initiate_close_latest,
}
use algorand_state_channels.Server.Rpc.Closing.Together.{cooperative_close_agrees}
use algorand_state_channels.Contract.State.{Channel, Chain}
use algorand_state_channels.Contract.Group.{run_submission}
use algorand_state_channels.Contract.Agreement.{
  SameCrypto, HasParties, Divides, with_state, payouts_of,
}
use algorand_state_channels.Contract.Closing.{cooperative_close_channel_runs}
use algorand_state_channels.Contract.Disputes.{
  IsBinding, IsIgnored, raise_dispute-IsIgnored, exchanged_signatures-IsIgnored,
}

-- A closing is under way, the contract's balance for the node is below that of the node's latest
-- state, and Alice's signature of that state verifies. The watchtower then submits a dispute and
-- forgets the channel, and the contract ignores the dispute: the call fails, or it changes and
-- pays nothing. The contract is on a chain with the node's hash and signature check, which are
-- binding.
pub dispute_has_no_effect :
    (w : World) (s : Server) (address : Address) (info : PaymentChannelInfo)
    (latest : OffChainState) (onchain_alice onchain_bob : ℕ) (chain : Chain) (ch : Channel)
    (alice_party bob_party : Address)
    → IsClosing w s address info latest onchain_alice onchain_bob
    → leb
        (balance_of (is_alice info s.algo_account.address) latest)
        (if is_alice info s.algo_account.address then onchain_alice else onchain_bob)
      ≡ false
    → SameCrypto w.sdk chain
    → IsBinding w.sdk
    → HasParties w.sdk ch alice_party bob_party
    → info.app_id ≡ chain.application_id
    → verify_state w.sdk info.app_id latest.alice_balance latest.bob_balance 4161
        latest.alice_signature alice_party latest.timestamp
      ≡ true
    → (s' : Server) × (dispute : Submission) × (watch_channel w address info s ≡ (ok tt, s'))
      × (s'.submitted ≡ s.submitted ++ dispute ∷ [])
      × (lookup address s'.onchain_states ≡ none)
      × IsIgnored (run_submission w.sdk chain dispute ch) ch
unfolding forget_channel
dispute_has_no_effect w s address info latest onchain_alice onchain_bob chain ch alice_party
      bob_party closing worse same binding parties same_app verified =
    (
      disputed address info latest s,
      raise_dispute s.algo_account 4161 info.app_id latest.alice_balance latest.bob_balance
          latest.timestamp latest.alice_signature latest.bob_signature,
      watch_channel_closing w s address info latest onchain_alice onchain_bob closing
          ∙ ap (λ b. if b then (ok tt, s) else (ok tt, disputed address info latest s)) worse,
      refl,
      lookup-erase_self address s.onchain_states,
      rw same_app (
          raise_dispute-IsIgnored w.sdk chain ch alice_party bob_party same binding parties
            s.algo_account latest.alice_balance latest.bob_balance latest.timestamp
            latest.alice_signature latest.bob_signature (rw (← same_app) verified)),
    )

-- The latest state of a node, with at least 1000 on both sides, has a signature of Bob in the
-- place of Alice's, as on Bob's node after Pay. InitiateCloseChannel then returns normally and
-- submits a call that the contract ignores: it fails, or it changes and pays nothing. The
-- contract's parties have different keys, and it is on a chain with the node's hash and signature
-- check, which are binding.
pub initiate_close-IsIgnored :
    (w : World) (s : Server) (partner : Address) (info : PaymentChannelInfo)
    (latest : OffChainState) (chain : Chain) (ch : Channel) (alice_party bob_party : Address)
    → Knows s partner info latest
    → can_close latest ≡ true
    → SameCrypto w.sdk chain
    → IsBinding w.sdk
    → HasParties w.sdk ch alice_party bob_party
    → ch.alice_address ≢ ch.bob_address
    → info.app_id ≡ chain.application_id
    → verify_state w.sdk info.app_id latest.alice_balance latest.bob_balance 4161
        latest.alice_signature bob_party latest.timestamp
      ≡ true
    → (s' : Server) × (closing : Submission) × (initiate_close partner s ≡ (ok tt, s'))
      × (s'.submitted ≡ s.submitted ++ closing ∷ [])
      × IsIgnored (run_submission w.sdk chain closing ch) ch
initiate_close-IsIgnored w s partner info latest chain ch alice_party bob_party knows enough same
      binding parties distinct same_app verified =
    (
      closing_sent info latest s,
      initiate_close_channel s.algo_account 4161 info.app_id latest.alice_balance latest.bob_balance
          latest.timestamp latest.alice_signature latest.bob_signature,
      initiate_close_latest s partner info latest knows ∙ ground arith,
      refl,
      rw same_app (
          exchanged_signatures-IsIgnored w.sdk chain ch alice_party bob_party same binding parties
            s.algo_account latest.alice_balance latest.bob_balance latest.timestamp
            latest.alice_signature latest.bob_signature (rw (← same_app) verified) distinct),
    )

module _ (wa wb : World) (a b : Server) (ia ib : PaymentChannelInfo) (la lb : OffChainState)
    (ip : Bytes) (same_sdk : wb.sdk ≡ wa.sdk)
    (delivers : (r : P2PRequest)
      → wa.peer ia.partner_ip r ≡ exchange_of (process_request wb ip r b).0)
    (shares : Shares wa.sdk a b ia ib la lb) (same_time : la.timestamp ≡ lb.timestamp)
    (chain : Chain) (ch : Channel) where
  abbrev other_party : Address
  other_party =
      if is_alice ia a.algo_account.address then b.algo_account.address else a.algo_account.address

  caller_is_party :
      HasParties wa.sdk ch ia.alice_address other_party
      → (wa.sdk.decode_address a.algo_account.address ≡ ch.alice_address)
        ⊎ (wa.sdk.decode_address a.algo_account.address ≡ ch.bob_address)
  caller_is_party parties = elim (Bool-cases (is_alice ia a.algo_account.address)) [
    | inl is_a ↦
        let mine : ia.alice_address ≡ a.algo_account.address =
          (bytes_eq_iff ia.alice_address a.algo_account.address).0 is_a in
        inl (ap wa.sdk.decode_address (sym mine) ∙ sym parties.alice_key)
    | inr is_b ↦
        let mine : other_party ≡ a.algo_account.address = rw is_b refl in
        inr (ap wa.sdk.decode_address (sym mine) ∙ sym parties.bob_key)
  ]

  -- Two nodes with key pairs know one channel with the same latest balances and timestamp, and
  -- reach each other. The contract is on a chain with their hash and signature check, has them as
  -- its parties and those balances, a uint64 in sum, as its deposit, and no closing has been
  -- started. CooperativeCloseChannel then submits a call that the contract approves with payments
  -- to both of their balances, less a fee each, if these are at least the 1000 of the node's test
  -- and the fee.
  pub cooperative_close_pays_out :
      HasParties wa.sdk ch ia.alice_address other_party
      → SameCrypto wa.sdk chain
      → ia.app_id ≡ chain.application_id
      → Divides ch la.alice_balance la.bob_balance la.timestamp
      → ch.timeout ≡ 0
      → can_close la ≡ true
      → chain.min_txn_fee ≤ la.alice_balance
      → chain.min_txn_fee ≤ la.bob_balance
      → (s' : Server) × (closing : Submission) × (cooperative_close wa b.algo_account.address a
          ≡ (ok tt, s'))
        × (s'.submitted ≡ a.submitted ++ closing ∷ [])
        × (run_submission wa.sdk chain closing ch
            ≡ some (
              with_state la.alice_balance la.bob_balance la.timestamp ch,
              payouts_of chain la.alice_balance la.bob_balance ch,
            ))
  unfolding forget_channel
  cooperative_close_pays_out parties same same_app divides unopened enough fa fb =
      let (sa, sb, closes, va, vb) =
        cooperative_close_agrees wa wb a b ia ib la lb ip same_sdk delivers shares same_time
          enough in
      (
        closed_together b.algo_account.address ia la sa sb a,
        cooperative_close_channel a.algo_account b.algo_account.address 4161 ia.app_id
            la.alice_balance la.bob_balance la.timestamp sa sb,
        closes,
        refl,
        rw same_app (
            cooperative_close_channel_runs wa.sdk chain ch ia.alice_address other_party same parties
              la.alice_balance la.bob_balance la.timestamp divides sa sb a.algo_account
              (caller_is_party parties) b.algo_account.address unopened fa fb (rw (← same_app) va)
              (rw (← same_app) vb)),
      )
