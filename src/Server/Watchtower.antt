-- ===== src/Server/Watchtower.antt =====
-- watchtower.go: one round of the loop that UpdateWatchtowerState starts, over the channels.
pub mod Disputes
pub mod Rounds
use algorand_state_channels.Base.{
  ℕ, Bytes, bytes_has_eq, codes, Bool, Option, none, some, List, [], ◌∷◌, leb, if◌then◌else◌,
}
use algorand_state_channels.Base.Word.{slt}
use algorand_state_channels.Base.Decimal.{parse_uint}
use algorand_state_channels.Base.Dict.{Dict, lookup, erase}
use algorand_state_channels.Payment.Sdk.{Address}
use algorand_state_channels.Payment.Calls.{raise_dispute}
use algorand_state_channels.Server.State.{
  Server, PaymentChannelInfo, OffChainState, PaymentLog, TealKeyValue, World,
}
use algorand_state_channels.Server.Action.{
  ok, stop, fatal, Action, pure, gets, or_halt, lift, modify, submit, ◌>>=◌, ◌>>◌,
}
use algorand_state_channels.Server.Log.{get_latest_off_chain_state, balance_of}
use algorand_state_channels.Server.GlobalState.{get_value_of_global_state, parse_int}
use algorand_state_channels.Server.Peer.{is_alice}

-- `delete(payment_channels_onchain_states, address)`
unfoldable pub forget_channel : Address → Server → Server
forget_channel address s = record s { onchain_states = erase address s.onchain_states }

-- A balance of the contract; the process ends if it is missing.
onchain_balance : List TealKeyValue → Bytes → Action ℕ
onchain_balance global_state key = do
  value ← lift (get_value_of_global_state global_state key)
  text ← or_halt fatal value
  or_halt fatal (parse_uint text)

-- Disputes unless the contract's balance is at least that of the latest state.
unfoldable pub dispute_if_worse :
    Address → PaymentChannelInfo → OffChainState → ℕ → ℕ → Action (Unit {0})
dispute_if_worse address info latest onchain_alice onchain_bob = do
  account ← gets (λ s. s.algo_account)
  let me_alice = is_alice info account.address
  let onchain_mine = if me_alice then onchain_alice else onchain_bob
  if leb (balance_of me_alice latest) onchain_mine then pure tt else do
    submit (
        raise_dispute account 4161 info.app_id latest.alice_balance latest.bob_balance
          latest.timestamp latest.alice_signature latest.bob_signature)
    modify (forget_channel address)

-- What happens once a channel's closing has been initiated.
unfoldable pub on_closing : Address → PaymentChannelInfo → List TealKeyValue → Action (Unit {0})
unfolding onchain_balance
on_closing address info global_state = do
  found ← gets (λ s. lookup address s.offchain_states_log)
  elim found [
    | none ↦ pure tt
    | some payment_log ↦ elim (get_latest_off_chain_state payment_log) [
      | none ↦ pure tt
      | some latest ↦ do
        alice ← onchain_balance global_state (codes "latest_alice_balance")
        bob ← onchain_balance global_state (codes "latest_bob_balance")
        dispute_if_worse address info latest alice bob
    ]
  ]

-- The body of the loop over the channels.
unfoldable pub watch_channel : World → Address → PaymentChannelInfo → Action (Unit {0})
watch_channel w address info = do
  app ← or_halt fatal (w.application_by_id info.app_id)
  timeout_bytes ← lift (get_value_of_global_state app.global_state (codes "timeout"))
  elim timeout_bytes [
    | none ↦ pure tt
    | some text ↦ do
      timeout ← parse_int text
      if slt 0 timeout then on_closing address info app.global_state else pure tt
  ]

-- One pass over the channels that the map held when the pass began: the body deletes no channel
-- but its own.
unfoldable pub watch_channels : World → Dict Address PaymentChannelInfo → Action (Unit {0})
watch_channels w [] = pure tt
watch_channels w ((address, info) ∷ rest) = do watch_channel w address info; watch_channels w rest

unfoldable pub watch_round : World → Action (Unit {0})
unfolding watch_channels
watch_round w = do channels ← gets (λ s. s.onchain_states); watch_channels w channels
