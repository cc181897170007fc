-- ===== src/Server/Watchtower/Disputes.antt =====
-- What one pass of the watchtower does with a channel.
use algorand_state_channels.Base.{
  ℕ, ◌<◌, ◌≡◌, ◌⊎◌, inl, inr, Bytes, bytes_has_eq, codes, none, some, List, [], ◌∷◌, ◌++◌, arith,
  leb, if◌then◌else◌,
}
use algorand_state_channels.Base.Word.{slt_of_nonneg, IsWord, sign_bit}
use algorand_state_channels.Base.Decimal.{
  format_uint, parse_uint-format_uint, sscanf_int-format_uint,
}
use algorand_state_channels.Base.Dict.{lookup}
use algorand_state_channels.Payment.Sdk.{Address}
use algorand_state_channels.Payment.Calls.{raise_dispute}
use algorand_state_channels.Server.State.{
  Server, PaymentChannelInfo, OffChainState, PaymentLog, TealKeyValue, Application, World,
}
use algorand_state_channels.Server.Action.{ok}
use algorand_state_channels.Server.Log.{get_latest_off_chain_state, balance_of}
use algorand_state_channels.Server.GlobalState.{get_value_of_global_state, parse_int}
use algorand_state_channels.Server.Peer.{is_alice}
use algorand_state_channels.Server.Watchtower.{
  forget_channel, dispute_if_worse, on_closing, watch_channel,
}

-- The contract holds the uint64 `v` under `key`.
abbrev pub HoldsUint : List TealKeyValue → Bytes → ℕ → Type 0
HoldsUint global_state key v =
    (get_value_of_global_state global_state key ≡ ok (some (format_uint v))) × IsWord v

-- What the watchtower finds of a channel whose closing has been initiated.
pub record IsClosing (w : World) (s : Server) (address : Address) (info : PaymentChannelInfo)
    (latest : OffChainState) (onchain_alice onchain_bob : ℕ) : Type 0 where
  pub app : Application
  pub timeout : ℕ
  pub log : PaymentLog
  pub known_app : w.application_by_id info.app_id ≡ some app
  pub has_timeout : HoldsUint app.global_state (codes "timeout") timeout
  pub timeout_positive : 0 < timeout
  pub timeout_small : timeout < sign_bit
  pub logged : lookup address s.offchain_states_log ≡ some log
  pub last : get_latest_off_chain_state log ≡ some latest
  pub has_alice : HoldsUint app.global_state (codes "latest_alice_balance") onchain_alice
  pub has_bob : HoldsUint app.global_state (codes "latest_bob_balance") onchain_bob

-- The server after a dispute over a channel.
abbrev pub disputed : Address → PaymentChannelInfo → OffChainState → Server → Server
disputed address info latest s = forget_channel address (record s {
  submitted =
      s.submitted
      ++ raise_dispute s.algo_account 4161 info.app_id latest.alice_balance latest.bob_balance
          latest.timestamp latest.alice_signature latest.bob_signature
        ∷ [];
})

-- With a closing under way the watchtower disputes, with the latest state of its log, exactly if
-- the contract's balance for the node is below the node's balance in that state; it forgets the
-- channel then, and otherwise changes nothing.
pub watch_channel_closing :
    (w : World) (s : Server) (address : Address) (info : PaymentChannelInfo)
    (latest : OffChainState) (onchain_alice onchain_bob : ℕ)
    → IsClosing w s address info latest onchain_alice onchain_bob
    → let me_alice = is_alice info s.algo_account.address in
      watch_channel w address info s ≡ (
        if leb (balance_of me_alice latest) (if me_alice then onchain_alice else onchain_bob)
        then (ok tt, s)
        else (ok tt, disputed address info latest s))
unfolding watch_channel on_closing dispute_if_worse parse_int
watch_channel_closing w s address info latest alice bob h = ground (
  arith,
  h.known_app,
  h.has_timeout.0,
  sscanf_int-format_uint h.timeout h.timeout_small,
  slt_of_nonneg 0 h.timeout (omega arith) h.timeout_small,
  h.timeout_positive,
  h.logged,
  h.last,
  h.has_alice.0,
  parse_uint-format_uint alice h.has_alice.1,
  h.has_bob.0,
  parse_uint-format_uint bob h.has_bob.1,
)

-- For a channel whose contract has no timeout, or the timeout 0, the watchtower changes nothing.
pub watch_channel_open :
    (w : World) (s : Server) (address : Address) (info : PaymentChannelInfo) (app : Application)
    → w.application_by_id info.app_id ≡ some app
    → (get_value_of_global_state app.global_state (codes "timeout") ≡ ok none)
      ⊎ HoldsUint app.global_state (codes "timeout") 0
    → watch_channel w address info s ≡ (ok tt, s)
unfolding watch_channel parse_int
watch_channel_open w s address info app e (inl missing) = ground arith
watch_channel_open w s address info app e (inr zero_timeout) =
    ground
      (arith, sscanf_int-format_uint 0 (omega arith), slt_of_nonneg 0 0 (omega arith) (omega arith))
