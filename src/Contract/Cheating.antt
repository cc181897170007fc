-- ===== src/Contract/Cheating.antt =====
-- TryToCheat against the watchtower of the other node.
use algorand_state_channels.Base.{
  ℕ, ◌+◌, ◌<◌, ◌≤◌, ◌≡◌, ◌⊎◌, refl, true, false, bytes_has_eq, some, [], ◌∷◌, ◌++◌, arith, leb,
  if◌then◌else◌,
}
use algorand_state_channels.Base.Word.{IsWord}
use algorand_state_channels.Base.Dict.{lookup}
use algorand_state_channels.Payment.Sdk.{Sdk, Address}
use algorand_state_channels.Payment.Signing.{verify_state}
use algorand_state_channels.Payment.Calls.{
  Submission, initiate_close_channel, finalize_close_channel,
}
use algorand_state_channels.Server.State.{
  Server, PaymentChannelInfo, OffChainState, PaymentLog, World,
}
use algorand_state_channels.Server.Action.{ok}
use algorand_state_channels.Server.Log.{balance_of, get_highest_balance_off_chain_state}
use algorand_state_channels.Server.Peer.{is_alice}
use algorand_state_channels.Server.Watchtower.{watch_channel}
use algorand_state_channels.Server.Watchtower.Disputes.{IsClosing}
use algorand_state_channels.Server.Rpc.{can_close, try_to_cheat, find_channel, submit_closing}
use algorand_state_channels.Server.Rpc.Closing.{closing_sent}
use algorand_state_channels.Contract.State.{Channel, Chain}
use algorand_state_channels.Contract.Group.{run_submission}
use algorand_state_channels.Contract.Agreement.{
  SameCrypto, HasParties, Divides, with_state, closing_by, payouts_of,
}
use algorand_state_channels.Contract.Closing.{initiate_close_channel_runs}
use algorand_state_channels.Contract.Disputes.{IsBinding, IsIgnored}
use algorand_state_channels.Contract.Nodes.{dispute_has_no_effect}
use algorand_state_channels.Contract.Payout.{finalize_close_channel_runs}

-- The channel and the state of its log that TryToCheat closes with.
pub record CanCheat (s : Server) (partner : Address) (info : PaymentChannelInfo)
    (highest : OffChainState) : Type 0 where
  pub log : PaymentLog
  pub channel : lookup partner s.onchain_states ≡ some info
  pub logged : lookup partner s.offchain_states_log ≡ some log
  pub chosen :
      get_highest_balance_off_chain_state (is_alice info s.algo_account.address) log ≡ some highest
  pub enough : can_close highest ≡ true

try_to_cheat_runs :
    (s : Server) (partner : Address) (info : PaymentChannelInfo) (highest : OffChainState)
    → CanCheat s partner info highest
    → try_to_cheat partner s ≡ (ok tt, closing_sent info highest s)
unfolding try_to_cheat find_channel submit_closing
try_to_cheat_runs s partner info highest h = ground (arith, h.channel, h.logged, h.chosen, h.enough)

-- The round has no part in the chain's checks.
later-SameCrypto :
    (sdk : Sdk) (chain : Chain) (later : ℕ)
    → SameCrypto sdk chain
    → SameCrypto sdk (record chain { round = later })
later-SameCrypto sdk chain later same = record {
  same_hash = same.same_hash;
  accepts = same.accepts;
  sound = same.sound;
}

module _ (w : World) (chain : Chain) (ch : Channel) (alice_party bob_party : Address)
    (same : SameCrypto w.sdk chain) (binding : IsBinding w.sdk)
    (parties : HasParties w.sdk ch alice_party bob_party) (s : Server) (partner : Address)
    (info : PaymentChannelInfo) (highest : OffChainState) where
  -- The channel while the cheater's closing is under way.
  abbrev cheated : Channel
  cheated =
      closing_by w.sdk chain s.algo_account
        (with_state highest.alice_balance highest.bob_balance highest.timestamp ch)

  -- The cheater's call, and the payments of its closing.
  abbrev cheat : Submission
  cheat =
      initiate_close_channel s.algo_account 4161 info.app_id highest.alice_balance
        highest.bob_balance highest.timestamp highest.alice_signature highest.bob_signature

  module _ (can_cheat : CanCheat s partner info highest)
      (is_party : (w.sdk.decode_address s.algo_account.address ≡ ch.alice_address)
        ⊎ (w.sdk.decode_address s.algo_account.address ≡ ch.bob_address))
      (same_app : info.app_id ≡ chain.application_id)
      (divides : Divides ch highest.alice_balance highest.bob_balance highest.timestamp)
      (in_time : IsWord (chain.round + ch.dispute_window))
      (alice_signed : verify_state w.sdk info.app_id highest.alice_balance highest.bob_balance 4161
          highest.alice_signature alice_party highest.timestamp
        ≡ true)
      (bob_signed : verify_state w.sdk info.app_id highest.alice_balance highest.bob_balance 4161
          highest.bob_signature bob_party highest.timestamp
        ≡ true) where
    cheat_runs : run_submission w.sdk chain cheat ch ≡ some (cheated, [])
    cheat_runs = rw same_app (
        initiate_close_channel_runs w.sdk chain ch alice_party bob_party same parties
          highest.alice_balance highest.bob_balance highest.timestamp divides
          highest.alice_signature highest.bob_signature s.algo_account is_party in_time
          (rw (← same_app) alice_signed) (rw (← same_app) bob_signed))

    -- A party calls TryToCheat. The state of its log with its highest balance has the signatures of
    -- both, makes up the deposit and leaves at least 1000 and a fee on both sides, and the contract
    -- starts to close with it. The other node's watchtower then finds the closing, with a state in
    -- its log in which it has more and whose signature by Alice verifies; it disputes and forgets
    -- the channel, and the contract ignores the dispute, in whatever round. After the dispute
    -- window a finalizing call makes the contract pay both what the cheater's state says, less a
    -- fee each. The nodes have the contract's application, the chain has their hash and signature
    -- check, which are binding, and deposit, timestamp and timeout are uint64.
    pub cheating_pays :
        (t : Server) (address : Address) (their_info : PaymentChannelInfo) (latest : OffChainState)
        → their_info.app_id ≡ chain.application_id
        → IsClosing w t address their_info latest highest.alice_balance highest.bob_balance
        → leb (balance_of (is_alice their_info t.algo_account.address) latest) (
            if is_alice their_info t.algo_account.address
            then highest.alice_balance
            else highest.bob_balance)
          ≡ false
        → verify_state w.sdk their_info.app_id latest.alice_balance latest.bob_balance 4161
            latest.alice_signature alice_party latest.timestamp
          ≡ true
        → chain.min_txn_fee ≤ highest.alice_balance
        → chain.min_txn_fee ≤ highest.bob_balance
        → (dispute_round later : ℕ) → chain.round + ch.dispute_window < later
        → (s' : Server) × (t' : Server) × (dispute : Submission) × (try_to_cheat partner s
            ≡ (ok tt, s'))
          × (s'.submitted ≡ s.submitted ++ cheat ∷ [])
          × (run_submission w.sdk chain cheat ch ≡ some (cheated, []))
          × (watch_channel w address their_info t ≡ (ok tt, t'))
          × (t'.submitted ≡ t.submitted ++ dispute ∷ [])
          × IsIgnored
              (run_submission w.sdk (record chain { round = dispute_round }) dispute cheated)
              cheated
          × (run_submission w.sdk
                (record chain { round = later })
                (finalize_close_channel s.algo_account partner chain.application_id)
                cheated
              ≡ some (cheated, payouts_of chain highest.alice_balance highest.bob_balance ch))
    cheating_pays t address their_info latest their_app closing worse verified fa fb dispute_round
          later late =
        let at_dispute : Chain = record chain { round = dispute_round } in
        let (t', dispute, watches, sent, forgotten, ignored) =
          dispute_has_no_effect w t address their_info latest highest.alice_balance
            highest.bob_balance at_dispute cheated alice_party bob_party closing worse
            (later-SameCrypto w.sdk chain dispute_round same) binding
            (record { alice_key = parties.alice_key; bob_key = parties.bob_key }) their_app
            verified in
        (
          closing_sent info highest s,
          t',
          dispute,
          try_to_cheat_runs s partner info highest can_cheat,
          refl,
          cheat_runs,
          watches,
          sent,
          ignored,
          finalize_close_channel_runs w.sdk (record chain { round = later }) s.algo_account partner
              cheated late fa fb,
        )
