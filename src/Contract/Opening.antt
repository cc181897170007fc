-- ===== src/Contract/Opening.antt =====
-- What OpenChannel sends to the chain, and what it keeps of the channel.
use algorand_state_channels.Base.{
  ℕ, ◌+◌, ◌<◌, ◌≡◌, inl, inr, refl, sym, ◌∙◌, Bytes, bytes_has_eq, codes, some, [], ◌∷◌, ◌++◌,
  arith,
}
use algorand_state_channels.Base.Decimal.{format_uint}
use algorand_state_channels.Base.Dict.{lookup, lookup-insert_self}
use algorand_state_channels.Base.Word.{IsWord}
use algorand_state_channels.Payment.Sdk.{Sdk, Account, Address}
use algorand_state_channels.Payment.Calls.{Submission, create_payment_app, setup_payment_app}
use algorand_state_channels.Contract.State.{Channel, Chain}
use algorand_state_channels.Contract.Group.{run_submission, run_creation}
use algorand_state_channels.Contract.Agreement.{HasParties}
use algorand_state_channels.Contract.Funding.{
  created_channel, create_payment_app_runs, setup_payment_app_runs,
}
use algorand_state_channels.Server.State.{Server, P2PRequest, PaymentChannelInfo, World}
use algorand_state_channels.Server.Action.{ok}
use algorand_state_channels.Server.GlobalState.{save_channel, log_state}
use algorand_state_channels.Server.Growth.{send_request-cases}
use algorand_state_channels.Server.Peer.{update_watchtower_state}
use algorand_state_channels.Server.Rpc.{open_channel, opened_channel}

-- The contract's state says what the node keeps of the channel.
pub record Describes (sdk : Sdk) (info : PaymentChannelInfo) (ch : Channel) : Type 0 where
  pub parties : HasParties sdk ch info.alice_address info.bob_address
  pub alice_balance : ch.latest_alice_balance ≡ info.alice_onchain_balance
  pub bob_balance : ch.latest_bob_balance ≡ info.bob_onchain_balance
  pub deposit : ch.total_deposit ≡ info.total_deposit
  pub reserve : ch.penalty_reserve ≡ info.penalty_reserve
  pub window : ch.dispute_window ≡ info.dispute_window

-- The contract has the terms of the call of OpenChannel.
pub record HasTerms (sdk : Sdk) (alice bob : Address) (funding penalty dispute_window : ℕ)
    (ch : Channel) : Type 0 where
  pub parties : HasParties sdk ch alice bob
  pub alice_balance : ch.latest_alice_balance ≡ funding
  pub bob_balance : ch.latest_bob_balance ≡ 0
  pub deposit : ch.total_deposit ≡ funding
  pub reserve : ch.penalty_reserve ≡ penalty
  pub window : ch.dispute_window ≡ dispute_window

-- A contract with these terms is what the node keeps of the channel.
HasTerms-Describes :
    (sdk : Sdk) (host : Bytes) (account : Account) (partner : Address)
    (app_id funding penalty window : ℕ) (ch : Channel)
    → HasTerms sdk account.address partner funding penalty window ch
    → Describes sdk (opened_channel host account.address partner app_id funding penalty window) ch
unfolding opened_channel
HasTerms-Describes sdk host account partner app_id funding penalty window ch h = record {
  parties = record { alice_key = h.parties.alice_key; bob_key = h.parties.bob_key };
  alice_balance = h.alice_balance;
  bob_balance = h.bob_balance;
  deposit = h.deposit;
  reserve = h.reserve;
  window = h.window;
}

-- The two submissions of OpenChannel create and fund a contract with the terms of the call.
submissions_create :
    (w : World) (chain : Chain) (account : Account) (partner : Address) (funding penalty window : ℕ)
    → chain.application_id ≡ w.created_app_id
    → chain.application_address ≡ w.sdk.decode_address (w.sdk.application_address w.created_app_id)
    → penalty + chain.min_txn_fee < funding
    → IsWord funding
    → IsWord window
    → (created ch : Channel) × (run_creation w.sdk chain
          (create_payment_app w.sdk w.compiler account partner penalty window)
        ≡ some (created, []))
      × (run_submission w.sdk chain
            (setup_payment_app w.sdk w.created_app_id account funding)
            created
          ≡ some (ch, []))
      × HasTerms w.sdk account.address partner funding penalty window ch
submissions_create w chain account partner funding penalty window same_id at_address enough hf hw =
    let created = created_channel w.sdk account partner penalty window in
    let ch : Channel = record created { latest_alice_balance = funding; total_deposit = funding } in
    (
      created,
      ch,
      create_payment_app_runs w.sdk chain w.compiler account partner penalty window (omega arith)
          hw,
      rw (← same_id) (
          setup_payment_app_runs w.sdk chain account funding created (rw same_id at_address) refl
            enough hf),
      record {
        parties = record { alice_key = refl; bob_key = refl };
        alice_balance = refl;
        bob_balance = refl;
        deposit = refl;
        reserve = refl;
        window = refl;
      },
    )

-- What OpenChannel has done when it returns normally.
open_channel_inversion :
    (w : World) (host : Bytes) (partner : Address) (funding penalty window app_id : ℕ)
    (s s' : Server)
    → open_channel w host partner funding penalty window s ≡ (ok app_id, s')
    → let info =
        opened_channel host s.algo_account.address partner w.created_app_id funding penalty
          window in
      (app_id ≡ w.created_app_id)
      × (s'.submitted
          ≡ (s.submitted
              ++ create_payment_app w.sdk w.compiler s.algo_account partner penalty window ∷ [])
            ++ setup_payment_app w.sdk w.created_app_id s.algo_account funding ∷ [])
      × (lookup partner s'.onchain_states ≡ some info)
unfolding open_channel update_watchtower_state save_channel log_state
open_channel_inversion w host partner funding penalty window app_id s s' e =
    let account = s.algo_account in
    let info =
      opened_channel host account.address partner w.created_app_id funding penalty window in
    let created : Server = record s {
      submitted =
          (s.submitted ++ create_payment_app w.sdk w.compiler account partner penalty window ∷ [])
          ++ setup_payment_app w.sdk w.created_app_id account funding ∷ [];
    } in
    let request : P2PRequest = record {
      command = codes "open_channel_request";
      args = format_uint w.created_app_id ∷ [];
    } in
    elim (send_request-cases w host request created) [
      | inl (stopped, failed) ↦ absurd (ground arith)
      | inr (response, answered) ↦ (
        ground arith,
        ground arith,
        ground (arith, lookup-insert_self partner info s.onchain_states),
      )
    ]

-- If OpenChannel returns normally, it has sent two submissions. They create and fund a contract
-- whose parties are the node and the partner and whose deposit, penalty reserve and dispute window
-- are those of the call, and the node keeps a channel with the partner that the contract's state
-- describes, under the contract's id and the host of the call, and returns this id. The funding
-- amount is above the penalty reserve and a fee, amount and dispute window are uint64, and the chain
-- knows the application by the id and address that the node uses.
pub open_channel-Describes :
    (w : World) (chain : Chain) (host : Bytes) (partner : Address)
    (funding penalty window app_id : ℕ) (s s' : Server)
    → open_channel w host partner funding penalty window s ≡ (ok app_id, s')
    → chain.application_id ≡ w.created_app_id
    → chain.application_address ≡ w.sdk.decode_address (w.sdk.application_address w.created_app_id)
    → penalty + chain.min_txn_fee < funding
    → IsWord funding
    → IsWord window
    → (creation : Submission) × (setup : Submission) × (created ch : Channel)
      × (info : PaymentChannelInfo) × (s'.submitted ≡ (s.submitted ++ creation ∷ []) ++ setup ∷ [])
      × (run_creation w.sdk chain creation ≡ some (created, []))
      × (run_submission w.sdk chain setup created ≡ some (ch, []))
      × HasTerms w.sdk s.algo_account.address partner funding penalty window ch
      × (lookup partner s'.onchain_states ≡ some info)
      × Describes w.sdk info ch
      × (info.app_id ≡ chain.application_id)
      × (info.partner_ip ≡ host)
      × (app_id ≡ chain.application_id)
unfolding opened_channel
open_channel-Describes w chain host partner funding penalty window app_id s s' e same_id at_address
      enough hf hw =
    let (returned, sent, kept) =
      open_channel_inversion w host partner funding penalty window app_id s s' e in
    let (created, ch, creates, sets_up, terms) =
      submissions_create w chain s.algo_account partner funding penalty window same_id at_address
        enough hf hw in
    (
      create_payment_app w.sdk w.compiler s.algo_account partner penalty window,
      setup_payment_app w.sdk w.created_app_id s.algo_account funding,
      created,
      ch,
      opened_channel host s.algo_account.address partner w.created_app_id funding penalty window,
      sent,
      creates,
      sets_up,
      terms,
      kept,
      HasTerms-Describes w.sdk host s.algo_account partner w.created_app_id funding penalty window
          ch terms,
      sym same_id,
      refl,
      returned ∙ sym same_id,
    )
