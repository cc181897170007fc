-- ===== src/Server/State.antt =====
-- The records of server.go and client.go, and what the node reads from outside.
use algorand_state_channels.Base.{ℕ, Bytes, List, Option}
use algorand_state_channels.Base.Dict.{Dict}
use algorand_state_channels.Payment.Sdk.{Sdk, Account, Address}
use algorand_state_channels.Payment.Sandbox.{Environment}
use algorand_state_channels.Payment.Calls.{Compiler, Submission}

-- paymentChannelInfo
pub record PaymentChannelInfo : Type 0 where
  pub app_id : ℕ  -- uint64, as all numbers of this record
  pub partner_ip : Bytes
  pub alice_address : Address
  pub bob_address : Address
  pub alice_onchain_balance : ℕ
  pub bob_onchain_balance : ℕ
  pub total_deposit : ℕ
  pub penalty_reserve : ℕ
  pub dispute_window : ℕ

-- paymentChannelOffChainState; a nil signature is the empty byte string
pub record OffChainState : Type 0 where
  pub timestamp : ℕ  -- int64
  pub alice_balance : ℕ  -- uint64
  pub bob_balance : ℕ  -- uint64
  pub alice_signature : Bytes
  pub bob_signature : Bytes
  pub algorand_port : ℕ  -- int
  pub app_id : ℕ  -- uint64

-- The zero value of `var latest_offchain_state paymentChannelOffChainState`.
abbrev pub zero_state : OffChainState
zero_state = record {
  timestamp = 0;
  alice_balance = 0;
  bob_balance = 0;
  alice_signature = List.[];
  bob_signature = List.[];
  algorand_port = 0;
  app_id = 0;
}

-- A channel's log, by timestamp.
abbrev pub PaymentLog : Type 0
PaymentLog = Dict ℕ OffChainState

-- `server`, without its listeners, ports and clients. `submitted` lists what the node has sent to
-- the chain so far, oldest first, and `watchtowers` counts the loops that UpdateWatchtowerState
-- has started.
pub record Server : Type 0 where
  pub algo_account : Account
  pub onchain_states : Dict Address PaymentChannelInfo
  pub offchain_states_log : Dict Address PaymentLog
  pub submitted : List Submission
  pub watchtowers : ℕ

-- client.go
pub record P2PRequest : Type 0 where
  pub command : Bytes
  pub args : List Bytes

pub record P2PResponse : Type 0 where
  pub message : Bytes
  pub response_data : List Bytes

-- How an exchange with a peer ends: the steps of `sendRequest` that may fail, or a response.
pub data Exchange : Type 0 where
  dial_failed write_failed read_failed unmarshal_failed : Exchange
  replied : P2PResponse → Exchange

-- models.TealKeyValue and models.Application of the SDK, as far as the program reads them
pub record TealKeyValue : Type 0 where
  pub key : Bytes  -- base64
  pub value_type : ℕ
  pub value_bytes : Bytes  -- base64
  pub value_uint : ℕ

pub record Application : Type 0 where
  pub approval_program : Bytes
  pub clear_state_program : Bytes
  pub global_state : List TealKeyValue

-- How the sending of a transaction ends: a step before it or the sending itself fails, or it is
-- sent and the confirmation fails or comes.
pub data Delivery : Type 0 where
  not_sent unconfirmed confirmed : Delivery

-- What one handler finds outside: the SDK's functions, the algod node, the peers and the clock.
pub record World : Type 0 where
  pub sdk : Sdk
  pub compiler : Compiler
  pub application_by_id : ℕ → Option Application  -- GetApplicationByID
  pub created_app_id : ℕ  -- ApplicationIndex of the confirmed creation
  pub account_amount : Address → Option ℕ  -- AccountInformation
  pub environment : Environment
  pub funding : Delivery  -- of the transaction in FundAccount
  pub peer : Bytes → P2PRequest → Exchange
  pub now : ℕ  -- time.Now().UnixNano()
