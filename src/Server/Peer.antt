-- ===== src/Server/Peer.antt =====
-- The requests of a peer: handleConnection of server.go, one definition for each `case`.
pub mod Acceptance
pub mod Progress
pub mod Payments
use algorand_state_channels.Base.{
  ℕ, ◌+◌, Bytes, bytes_has_eq, nat_has_eq, codes, Bool, true, false, ◌&&◌, Option, none, some, List,
  [], ◌∷◌, leb, ◌==◌, if◌then◌else◌,
}
use algorand_state_channels.Base.Word.{slt, sub64, neg64}
use algorand_state_channels.Base.Decimal.{parse_uint}
use algorand_state_channels.Base.Dict.{lookup}
use algorand_state_channels.Payment.Sdk.{Address}
use algorand_state_channels.Payment.Signing.{sign_state, sign_close, verify_state, verify_close}
use algorand_state_channels.Server.State.{
  Server, PaymentChannelInfo, OffChainState, P2PRequest, P2PResponse, World,
}
use algorand_state_channels.Server.Action.{
  Stop, reject, fatal, panic, Result, ok, stop, Action, pure, halt, gets, or_halt, lift, modify,
  require, index, read_uint64, ◌>>=◌, ◌>>◌,
}
use algorand_state_channels.Server.Log.{get_latest_off_chain_state}
use algorand_state_channels.Server.GlobalState.{
  do_open_channel_security_checks, save_payment_channel_on_chain_state, log_state, or_empty,
}

-- UpdateWatchtowerState starts one more loop; what a round of it does is in Server/Watchtower.
unfoldable pub update_watchtower_state : Action (Unit {0})
update_watchtower_state = modify (λ s. record s { watchtowers = s.watchtowers + 1 })

-- case "open_channel_request"
unfoldable pub open_channel_request : World → Bytes → List Bytes → Action (List Bytes)
open_channel_request w partner_ip args = do
  app_id_text ← index args 0
  app_id ← or_halt fatal (parse_uint app_id_text)
  app ← or_halt fatal (w.application_by_id app_id)
  smart_contract_valid ← do_open_channel_security_checks w app
  require smart_contract_valid reject
  save_payment_channel_on_chain_state w partner_ip app_id app.global_state
  update_watchtower_state
  pure []

abbrev pub is_alice : PaymentChannelInfo → Address → Bool
is_alice info address = info.alice_address == address

-- Step 3 of a pay request: the counterparty pays, exactly that amount arrives, the counterparty
-- can still pay the penalty, and the timestamp is later.
unfoldable pub is_beneficial : ℕ → ℕ → ℕ → ℕ → ℕ → ℕ → ℕ → Bool
is_beneficial last_counterparty_balance counterparty_new_balance last_my_balance my_new_balance
      penalty_reserve last_timestamp new_timestamp =
    let counterparty_balance_diff = sub64 last_counterparty_balance counterparty_new_balance in
    let my_balance_diff = sub64 last_my_balance my_new_balance in
    slt 0 counterparty_balance_diff
    && ((my_balance_diff == neg64 counterparty_balance_diff)
        && (leb penalty_reserve counterparty_new_balance && slt last_timestamp new_timestamp))

-- The same test, on the states of a channel and the side that the node is on.
unfoldable pub is_acceptable : Bool → PaymentChannelInfo → OffChainState → ℕ → ℕ → ℕ → Bool
is_acceptable me_alice info latest alice_new_balance bob_new_balance new_timestamp =
    if me_alice
    then is_beneficial latest.bob_balance bob_new_balance latest.alice_balance alice_new_balance
        info.penalty_reserve latest.timestamp new_timestamp
    else is_beneficial latest.alice_balance alice_new_balance latest.bob_balance bob_new_balance
        info.penalty_reserve latest.timestamp new_timestamp

-- The state that a pay request adds to the log.
unfoldable pub agreed_state : Bool → ℕ → ℕ → ℕ → ℕ → Bytes → Bytes → OffChainState
agreed_state me_alice app_id alice bob timestamp my_signature partner_signature = record {
  timestamp = timestamp;
  alice_balance = alice;
  bob_balance = bob;
  alice_signature = if me_alice then my_signature else partner_signature;
  bob_signature = if me_alice then partner_signature else my_signature;
  algorand_port = 4161;
  app_id = app_id;
}

-- case "pay_request", once the arguments are read
unfoldable pub process_payment : World → Address → ℕ → ℕ → ℕ → Bytes → Action (List Bytes)
process_payment w counterparty alice_new bob_new new_timestamp partner_signature = do
  found ← gets (λ s. lookup counterparty s.onchain_states)
  info ← or_halt reject found
  account ← gets (λ s. s.algo_account)
  found_log ← gets (λ s. lookup counterparty s.offchain_states_log)
  payment_log ← or_halt reject found_log
  latest ← or_halt reject (get_latest_off_chain_state payment_log)
  require
      (is_acceptable (is_alice info account.address) info latest alice_new bob_new new_timestamp)
      reject
  require
      (verify_state w.sdk info.app_id alice_new bob_new 4161 partner_signature counterparty
        new_timestamp)
      reject
  my_signature ←
      or_halt fatal (sign_state w.sdk info.app_id account alice_new bob_new 4161 new_timestamp)
  modify (
      log_state counterparty (
        agreed_state (is_alice info account.address) info.app_id alice_new bob_new new_timestamp
          my_signature partner_signature))
  pure (my_signature ∷ [])

-- case "pay_request"
unfoldable pub pay_request : World → List Bytes → Action (List Bytes)
pay_request w args = do
  counterparty_address ← index args 0
  alice_bytes ← index args 1
  alice_new_balance ← read_uint64 alice_bytes
  bob_bytes ← index args 2
  bob_new_balance ← read_uint64 bob_bytes
  timestamp_bytes ← index args 3
  new_timestamp ← read_uint64 timestamp_bytes
  channel_partner_signature ← index args 4
  process_payment w counterparty_address alice_new_balance bob_new_balance new_timestamp
      channel_partner_signature

-- case "close_channel_request"; a missing log is a nil map, which has no entry
unfoldable pub close_channel_request : World → List Bytes → Action (List Bytes)
close_channel_request w args = do
  counterparty_address ← index args 0
  channel_partner_signature ← index args 1
  found ← gets (λ s. lookup counterparty_address s.onchain_states)
  info ← or_halt reject found
  found_log ← gets (λ s. lookup counterparty_address s.offchain_states_log)
  latest ← or_halt reject (get_latest_off_chain_state (or_empty found_log))
  require
      (verify_close w.sdk info.app_id latest.alice_balance latest.bob_balance 4161
        channel_partner_signature counterparty_address latest.timestamp)
      reject
  account ← gets (λ s. s.algo_account)
  my_signature ← or_halt fatal (
      sign_close w.sdk info.app_id account latest.alice_balance latest.bob_balance 4161
        latest.timestamp)
  pure (my_signature ∷ [])

-- The response of a `case`: "approve" with its data, or "reject".
respond : Result (List Bytes) → Result P2PResponse
respond (ok d) = ok (record { message = codes "approve"; response_data = d })
respond (stop reject) = ok (record { message = codes "reject"; response_data = [] })
respond (stop e) = stop e

responding : Action (List Bytes) → Action P2PResponse
unfolding respond
responding m s = let (r, s') = m s in (respond r, s')

-- The `switch` of handleConnection. Nothing is set for "pay_response" and unknown commands.
unfoldable pub process_request : World → Bytes → P2PRequest → Action P2PResponse
unfolding responding
process_request w partner_ip request =
    if request.command == codes "open_channel_request"
    then responding (open_channel_request w partner_ip request.args)
    else if request.command == codes "pay_request"
    then responding (pay_request w request.args)
    else if request.command == codes "close_channel_request"
    then responding (close_channel_request w request.args)
    else pure (record { message = []; response_data = [] })

-- handleConnection: `none` is a request that could not be read or unmarshalled.
unfoldable pub handle_connection : World → Bytes → Option P2PRequest → Action P2PResponse
handle_connection w partner_ip none = halt fatal
handle_connection w partner_ip (some request) = process_request w partner_ip request
