-- ===== src/Server/Rpc.antt =====
-- The RPC methods of rpcserver.go and sendRequest of client.go. The run times that the responses
-- carry are left out, so that a response is the application's identifier, the node's address and
-- balance, or nothing.
pub mod Transfer
pub mod Agreement
pub mod Failures
pub mod Closing
use algorand_state_channels.Base.{
  ℕ, Bytes, bytes_has_eq, codes, Bool, not, Option, none, some, List, [], ◌∷◌, ltb, get_elem?, ◌||◌,
  ◌==◌, if◌then◌else◌,
}
use algorand_state_channels.Base.Word.{add64, sub64}
use algorand_state_channels.Base.BigEndian.{put_uint64}
use algorand_state_channels.Base.Decimal.{format_uint}
use algorand_state_channels.Base.Dict.{lookup, erase}
use algorand_state_channels.Payment.Sdk.{Account, Address}
use algorand_state_channels.Payment.Signing.{sign_state, sign_close, verify_state, verify_close}
use algorand_state_channels.Payment.Sandbox.{get_sandbox_accounts, node_account}
use algorand_state_channels.Payment.Calls.{
  Submission, payment, create_payment_app, setup_payment_app, initiate_close_channel,
  finalize_close_channel, cooperative_close_channel, or_nil,
}
use algorand_state_channels.Server.State.{
  Server, PaymentChannelInfo, OffChainState, P2PRequest, P2PResponse, Exchange, dial_failed,
  replied, World,
}
use algorand_state_channels.Server.Action.{
  Error, Stop, error, fatal, panic, ok, Action, pure, halt, gets, or_halt, modify, require, index,
  submit, ◌>>=◌, ◌>>◌, channel_does_not_exist, no_off_chain_state, not_enough_balance,
  signature_invalid, partner_rejected, invalid_response, request_failed, balance_unavailable,
}
use algorand_state_channels.Server.Log.{
  get_latest_off_chain_state, get_highest_balance_off_chain_state,
}
use algorand_state_channels.Server.GlobalState.{first_state, log_state, save_channel}
use algorand_state_channels.Server.Peer.{is_alice, agreed_state, update_watchtower_state}
use algorand_state_channels.Server.Watchtower.{forget_channel}

-- A failed Dial is only printed: closing the missing connection panics.
on_exchange : Exchange → Action P2PResponse
on_exchange dial_failed = halt panic
on_exchange (replied response) = pure response
on_exchange _ = halt (error request_failed)

-- sendRequest
unfoldable pub send_request : World → Bytes → P2PRequest → Action P2PResponse
unfolding on_exchange
send_request w recipient_ip request = on_exchange (w.peer recipient_ip request)

-- GetInfo, with getAlgoBalance
unfoldable pub get_info : World → Action (Address × ℕ)
get_info w = do
  account ← gets (λ s. s.algo_account)
  balance ← or_halt (error balance_unavailable) (w.account_amount account.address)
  pure (account.address, balance)

-- What OpenChannel writes when the partner approves.
unfoldable pub opened_channel : Bytes → Address → Address → ℕ → ℕ → ℕ → ℕ → PaymentChannelInfo
opened_channel host my_address partner app_id funding_amount penalty_reserve dispute_window =
    record {
      app_id = app_id;
      partner_ip = host;
      alice_address = my_address;
      bob_address = partner;
      alice_onchain_balance = funding_amount;
      bob_onchain_balance = 0;
      total_deposit = funding_amount;
      penalty_reserve = penalty_reserve;
      dispute_window = dispute_window;
    }

-- The error of a partner's answer that is not "approve".
pub refusal : Bytes → Error
refusal message = if message == codes "reject" then partner_rejected else invalid_response

-- OpenChannel
unfoldable pub open_channel : World → Bytes → Address → ℕ → ℕ → ℕ → Action ℕ
unfolding refusal
open_channel w host partner funding_amount penalty_reserve dispute_window = do
  account ← gets (λ s. s.algo_account)
  submit (create_payment_app w.sdk w.compiler account partner penalty_reserve dispute_window)
  submit (setup_payment_app w.sdk w.created_app_id account funding_amount)
  response ←
      send_request w host (record {
        command = codes "open_channel_request";
        args = format_uint w.created_app_id ∷ [];
      })
  require (response.message == codes "approve") (error (refusal response.message))
  let info =
      opened_channel host account.address partner w.created_app_id funding_amount penalty_reserve
        dispute_window
  modify (save_channel partner info)
  update_watchtower_state
  modify (log_state partner (first_state w.now info))
  pure w.created_app_id

-- The channel with a partner and the latest state of its log.
unfoldable pub find_channel : Address → Action PaymentChannelInfo
find_channel address = do
  found ← gets (λ s. lookup address s.onchain_states)
  or_halt (error channel_does_not_exist) found

unfoldable pub find_latest : Address → Action OffChainState
find_latest address = do
  found ← gets (λ s. lookup address s.offchain_states_log)
  payment_log ← or_halt (error channel_does_not_exist) found
  or_halt (error no_off_chain_state) (get_latest_off_chain_state payment_log)

-- The balances after a payment of `amount` by the node, Alice's first.
unfoldable pub paid_balances : Bool → OffChainState → ℕ → ℕ × ℕ
paid_balances me_alice latest amount =
    if me_alice
    then (sub64 latest.alice_balance amount, add64 latest.bob_balance amount)
    else (add64 latest.alice_balance amount, sub64 latest.bob_balance amount)

unfoldable pub pay_request_of : Address → ℕ → ℕ → ℕ → Bytes → P2PRequest
pay_request_of my_address alice bob timestamp my_signature = record {
  command = codes "pay_request";
  args = my_address ∷ put_uint64 alice ∷ put_uint64 bob ∷ put_uint64 timestamp ∷ my_signature ∷ [];
}

-- The state that Pay adds to the log: the node's own signature goes under Alice on either side.
unfoldable pub paid_state : ℕ → ℕ → ℕ → ℕ → Bytes → Bytes → OffChainState
paid_state app_id alice bob timestamp my_signature partner_signature = record {
  timestamp = timestamp;
  alice_balance = alice;
  bob_balance = bob;
  alice_signature = my_signature;
  bob_signature = partner_signature;
  algorand_port = 4161;
  app_id = app_id;
}

-- Pay from step 5: send the signed state, check the answer and save the state.
unfoldable pub exchange_payment :
    World → Account → PaymentChannelInfo → Address → ℕ → ℕ → Bytes → Action (Unit {0})
exchange_payment w account info partner alice bob my_signature = do
  response ←
      send_request w info.partner_ip (pay_request_of account.address alice bob w.now my_signature)
  require (response.message == codes "approve") (error partner_rejected)
  partner_signature ← index response.response_data 0
  require (verify_state w.sdk info.app_id alice bob 4161 partner_signature partner w.now)
      (error signature_invalid)
  modify (log_state partner (paid_state info.app_id alice bob w.now my_signature partner_signature))

-- Pay; an error of SignState is only printed
unfoldable pub pay : World → Address → ℕ → Action (Unit {0})
pay w partner amount = do
  info ← find_channel partner
  latest ← find_latest partner
  account ← gets (λ s. s.algo_account)
  let (alice, bob) = paid_balances (is_alice info account.address) latest amount
  exchange_payment w account info partner alice bob
      (or_nil (sign_state w.sdk info.app_id account alice bob 4161 w.now))

-- Both sides hold at least the 1000 microalgos that a closing needs.
abbrev pub can_close : OffChainState → Bool
can_close state = not (ltb state.alice_balance 1000 || ltb state.bob_balance 1000)

-- InitiateCloseChannel with a state of the log, also the end of TryToCheat
unfoldable pub submit_closing : PaymentChannelInfo → OffChainState → Action (Unit {0})
submit_closing info state = do
  require (can_close state) (error not_enough_balance)
  account ← gets (λ s. s.algo_account)
  submit (
      initiate_close_channel account 4161 info.app_id state.alice_balance state.bob_balance
        state.timestamp state.alice_signature state.bob_signature)

-- InitiateCloseChannel
unfoldable pub initiate_close : Address → Action (Unit {0})
initiate_close partner = do
  info ← find_channel partner
  latest ← find_latest partner
  submit_closing info latest

-- FinalizeCloseChannel
unfoldable pub finalize_close : Address → Action (Unit {0})
finalize_close partner = do
  info ← find_channel partner
  account ← gets (λ s. s.algo_account)
  let counterparty =
      if account.address == info.alice_address then info.bob_address else info.alice_address
  submit (finalize_close_channel account counterparty info.app_id)
  modify (forget_channel partner)

-- CooperativeCloseChannel
unfoldable pub cooperative_close : World → Address → Action (Unit {0})
cooperative_close w partner = do
  info ← find_channel partner
  latest ← find_latest partner
  require (can_close latest) (error not_enough_balance)
  account ← gets (λ s. s.algo_account)
  let my_signature = or_nil (
      sign_close w.sdk info.app_id account latest.alice_balance latest.bob_balance 4161
        latest.timestamp)
  response ← send_request w info.partner_ip (record {
    command = codes "close_channel_request";
    args = account.address ∷ my_signature ∷ [];
  })
  require (response.message == codes "approve") (error partner_rejected)
  partner_signature ← index response.response_data 0
  require
      (verify_close w.sdk info.app_id latest.alice_balance latest.bob_balance 4161 partner_signature
        partner latest.timestamp)
      (error signature_invalid)
  let me_alice = is_alice info account.address
  submit (
      cooperative_close_channel account partner 4161 info.app_id latest.alice_balance
        latest.bob_balance latest.timestamp (if me_alice then my_signature else partner_signature)
        (if me_alice then partner_signature else my_signature))
  modify (forget_channel partner)

-- TryToCheat
unfoldable pub try_to_cheat : Address → Action (Unit {0})
try_to_cheat partner = do
  info ← find_channel partner
  account ← gets (λ s. s.algo_account)
  found ← gets (λ s. lookup partner s.offchain_states_log)
  payment_log ← or_halt (error channel_does_not_exist) found
  highest ←
      or_halt (error no_off_chain_state)
        (get_highest_balance_off_chain_state (is_alice info account.address) payment_log)
  submit_closing info highest
