-- ===== src/Server/GlobalState.antt =====
-- The contract's global state as the node reads it: GetValueOfGlobalState, parseInt,
-- doOpenChannelSecurityChecks and savePaymentChannelOnChainState of server.go.
pub mod Checks
use algorand_state_channels.Base.{
  ℕ, ◌-◌, Bytes, bytes_has_eq, nat_has_eq, codes, Bool, true, false, not, ◌&&◌, Option, none, some,
  List, [], ◌∷◌, ◌==◌, if◌then◌else◌,
}
use algorand_state_channels.Base.Word.{slt}
use algorand_state_channels.Base.Base64.{base64_decode}
use algorand_state_channels.Base.Decimal.{format_uint, sscanf_int}
use algorand_state_channels.Base.Dict.{Dict, lookup, insert}
use algorand_state_channels.Payment.Sdk.{Address}
use algorand_state_channels.Payment.Calls.{compile_payment_programs}
use algorand_state_channels.Server.State.{
  Server, PaymentChannelInfo, OffChainState, PaymentLog, TealKeyValue, Application, World,
}
use algorand_state_channels.Server.Action.{
  Result, ok, stop, fatal, Action, pure, gets, or_halt, lift, modify, ◌>>=◌, ◌>>◌,
}

-- The value of an entry, by its type.
unfoldable pub value_bytes_of : TealKeyValue → Result (Option Bytes)
value_bytes_of kv =
    if kv.value_type == 1
    then elim (base64_decode kv.value_bytes) [ none ↦ stop fatal | some v ↦ ok (some v) ]
    else if kv.value_type == 2
    then ok (some (format_uint kv.value_uint))
    else stop fatal

-- GetValueOfGlobalState; `ok none` is nil
unfoldable pub get_value_of_global_state : List TealKeyValue → Bytes → Result (Option Bytes)
unfolding value_bytes_of
get_value_of_global_state [] key = ok none
get_value_of_global_state (kv ∷ rest) key =
    let later = get_value_of_global_state rest key in
    elim (base64_decode kv.key) [
      | none ↦ stop fatal
      | some decoded_key ↦ if decoded_key == key then value_bytes_of kv else later
    ]

-- parseInt
unfoldable pub parse_int : Bytes → Action ℕ
parse_int s = or_halt fatal (sscanf_int s)

abbrev pub in_range : ℕ → ℕ → ℕ → Bool
in_range lo hi v = not (slt v lo) && not (slt hi v)

-- Check 4: the penalty reserve.
unfoldable penalty_reserve_check : List TealKeyValue → Action Bool
unfolding parse_int
penalty_reserve_check global_state = do
  value ← lift (get_value_of_global_state global_state (codes "penalty_reserve"))
  elim value [
    | none ↦ pure false
    | some penalty_value ↦ do
      penalty_reserve ← parse_int penalty_value
      pure (in_range 100 100_000_000 penalty_reserve)
  ]

-- Check 3: the dispute window, then check 4.
unfoldable dispute_window_check : List TealKeyValue → Action Bool
unfolding parse_int penalty_reserve_check
dispute_window_check global_state = do
  value ← lift (get_value_of_global_state global_state (codes "dispute_window"))
  elim value [
    | none ↦ pure false
    | some dispute_window_value ↦ do
      dispute_window ← parse_int dispute_window_value
      if in_range 2 10_000 dispute_window then penalty_reserve_check global_state else pure false
  ]

-- Check 2: the node is Bob, then check 3.
unfoldable bob_address_check : World → List TealKeyValue → Action Bool
unfolding dispute_window_check
bob_address_check w global_state = do
  value ← lift (get_value_of_global_state global_state (codes "bob_address"))
  elim value [
    | none ↦ pure false
    | some bob_address_value ↦ do
      bob_address ← or_halt fatal (w.sdk.encode_address bob_address_value)
      account ← gets (λ s. s.algo_account)
      if account.address == bob_address then dispute_window_check global_state else pure false
  ]

-- doOpenChannelSecurityChecks, which begins with check 1: the programs
unfoldable pub do_open_channel_security_checks : World → Application → Action Bool
unfolding bob_address_check
do_open_channel_security_checks w app =
    let (expected_approval, expected_clear) = compile_payment_programs w.compiler in
    if app.approval_program == expected_approval && app.clear_state_program == expected_clear
    then bob_address_check w app.global_state
    else pure false

unfoldable pub assign_address : Bytes → Address → PaymentChannelInfo → PaymentChannelInfo
assign_address key address info =
    if key == codes "alice_address"
    then record info { alice_address = address }
    else if key == codes "bob_address"
    then record info { bob_address = address }
    else info

unfoldable pub assign_uint : Bytes → ℕ → PaymentChannelInfo → PaymentChannelInfo
assign_uint key value info =
    if key == codes "dispute_window"
    then record info { dispute_window = value }
    else if key == codes "total_deposit"
    then record info { total_deposit = value }
    else if key == codes "penalty_reserve"
    then record info { penalty_reserve = value }
    else if key == codes "latest_alice_balance"
    then record info { alice_onchain_balance = value }
    else if key == codes "latest_bob_balance"
    then record info { bob_onchain_balance = value }
    else info

-- One entry, whose key has been decoded. `none` is a log.Fatalf.
unfoldable pub assign_entry :
    World → Bytes → TealKeyValue → PaymentChannelInfo → Option PaymentChannelInfo
unfolding assign_address assign_uint
assign_entry w key kv info =
    if kv.value_type == 1
    then elim (base64_decode kv.value_bytes) [
      | none ↦ none
      | some decoded_value ↦ elim (w.sdk.encode_address decoded_value) [
        | none ↦ none
        | some address ↦ some (assign_address key address info)
      ]
    ]
    else if kv.value_type == 2
    then some (assign_uint key kv.value_uint info)
    else some info

-- The loop over the global state.
unfoldable pub read_channel_info :
    World → List TealKeyValue → PaymentChannelInfo → Option PaymentChannelInfo
unfolding assign_entry
read_channel_info w [] info = some info
read_channel_info w (kv ∷ rest) info = elim (base64_decode kv.key) [
  | none ↦ none
  | some key ↦ elim (assign_entry w key kv info) [
    | none ↦ none
    | some info' ↦ read_channel_info w rest info'
  ]
]

abbrev pub new_channel_info : Bytes → ℕ → PaymentChannelInfo
new_channel_info partner_ip app_id = record {
  app_id = app_id;
  partner_ip = partner_ip;
  alice_address = [];
  bob_address = [];
  alice_onchain_balance = 0;
  bob_onchain_balance = 0;
  total_deposit = 0;
  penalty_reserve = 0;
  dispute_window = 0;
}

-- The first state of a channel's log, which nobody has signed.
abbrev pub first_state : ℕ → PaymentChannelInfo → OffChainState
first_state now info = record {
  timestamp = now;
  alice_balance = info.alice_onchain_balance;
  bob_balance = info.bob_onchain_balance;
  alice_signature = [];
  bob_signature = [];
  algorand_port = 4161;
  app_id = info.app_id;
}

abbrev pub or_empty : Option PaymentLog → PaymentLog
or_empty none = []
or_empty (some log) = log

-- `payment_channels_offchain_states_log[address][timestamp] = state`, where the inner map is made
-- if it is not there yet
unfoldable pub log_state : Address → OffChainState → Server → Server
log_state address state s = record s {
  offchain_states_log =
      insert address
        (insert state.timestamp state (or_empty (lookup address s.offchain_states_log)))
        s.offchain_states_log;
}

unfoldable pub save_channel : Address → PaymentChannelInfo → Server → Server
save_channel address info s = record s { onchain_states = insert address info s.onchain_states }

-- savePaymentChannelOnChainState
unfoldable pub save_payment_channel_on_chain_state :
    World → Bytes → ℕ → List TealKeyValue → Action (Unit {0})
save_payment_channel_on_chain_state w partner_ip app_id global_state = do
  info ← or_halt fatal (read_channel_info w global_state (new_channel_info partner_ip app_id))
  modify (save_channel info.alice_address info)
  modify (log_state info.alice_address (first_state w.now info))
