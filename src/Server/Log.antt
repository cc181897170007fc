-- ===== src/Server/Log.antt =====
-- getLatestOffChainState and getHighestBalanceOffChainState of server.go.
pub mod Latest
pub mod Highest
use algorand_state_channels.Base.{
  ℕ, Bool, Option, none, some, List, [], ◌∷◌, ltb, nat_eq, if◌then◌else◌,
}
use algorand_state_channels.Base.Word.{slt}
use algorand_state_channels.Base.Dict.{Dict}
use algorand_state_channels.Server.State.{OffChainState, PaymentLog, zero_state}

-- The loop over the log, on latest_timestamp and latest_offchain_state.
latest_loop : ℕ → OffChainState → PaymentLog → ℕ × OffChainState
latest_loop t s [] = (t, s)
latest_loop t s ((timestamp, offchain_state) ∷ log) =
    latest_loop (if slt t timestamp then timestamp else t)
      (if slt t timestamp then offchain_state else s) log

-- `none` is the error "no off chain state found".
unfoldable pub get_latest_off_chain_state : PaymentLog → Option OffChainState
unfolding latest_loop
get_latest_off_chain_state log =
    let (t, s) = latest_loop 0 zero_state log in if nat_eq t 0 then none else some s

abbrev pub balance_of : Bool → OffChainState → ℕ
balance_of is_alice s = if is_alice then s.alice_balance else s.bob_balance

unfoldable highest_loop : Bool → ℕ → OffChainState → PaymentLog → ℕ × OffChainState
highest_loop is_alice b s [] = (b, s)
highest_loop is_alice b s ((_, offchain_state) ∷ log) =
    let balance = balance_of is_alice offchain_state in
    highest_loop is_alice (if ltb b balance then balance else b)
      (if ltb b balance then offchain_state else s) log

unfoldable pub get_highest_balance_off_chain_state : Bool → PaymentLog → Option OffChainState
unfolding highest_loop
get_highest_balance_off_chain_state is_alice log =
    let (b, s) = highest_loop is_alice 0 zero_state log in if nat_eq b 0 then none else some s
