-- ===== src/Server/Rpc/Agreement.antt =====
-- Two nodes with a common channel, one of which pays the other.
pub mod Payment
use algorand_state_channels.Base.{
  ℕ, ◌<◌, ◌≤◌, ◌≡◌, ◌≢◌, ◌⊎◌, inl, inr, refl, ap, sym, ◌∙◌, Bool, true, false, not, Bytes, bytes_eq,
  bytes_has_eq, bytes_eq_iff, Option, none, some, List, [], ◌∷◌, arith, Bool-cases, Option-cases,
  nat_has_eq, if◌then◌else◌, codes,
}
use algorand_state_channels.Base.Word.{slt, IsWord, add64, sub64, sign_bit}
use algorand_state_channels.Base.Dict.{lookup}
use algorand_state_channels.Payment.Sdk.{Sdk, Account, Address, IsKeyPair}
use algorand_state_channels.Payment.Signing.{
  sign_state, verify_state, verify_state-sign_state, sign_state-ne-none,
}
use algorand_state_channels.Payment.Calls.{or_nil}
use algorand_state_channels.Server.State.{
  Server, PaymentChannelInfo, OffChainState, PaymentLog, P2PRequest, P2PResponse, Exchange, World,
}
use algorand_state_channels.Server.Action.{Result, Stop, ok, stop, ◌>>=◌, ◌>>◌}
use algorand_state_channels.Server.Log.{get_latest_off_chain_state}
use algorand_state_channels.Server.GlobalState.{log_state}
use algorand_state_channels.Server.Peer.{
  is_alice, is_beneficial, is_acceptable, agreed_state, process_payment, process_request,
}
use algorand_state_channels.Server.Peer.Acceptance.{Accepted, process_payment_accepts}
use algorand_state_channels.Server.Rpc.{
  pay_request_of, paid_state, paid_balances, exchange_payment, find_channel, find_latest, pay,
}
use algorand_state_channels.Server.Rpc.Transfer.{
  exchange_of, process_request-pay_request_of, exchange_payment_saves,
}

-- A node knows a channel with `partner`: its entry, its log and the latest state of the log.
pub record Knows (s : Server) (partner : Address) (info : PaymentChannelInfo)
    (latest : OffChainState) : Type 0 where
  pub log : PaymentLog
  pub channel : lookup partner s.onchain_states ≡ some info
  pub logged : lookup partner s.offchain_states_log ≡ some log
  pub last : get_latest_off_chain_state log ≡ some latest

-- The two nodes know one channel, and agree in its latest balances.
pub record Shares (sdk : Sdk) (a b : Server) (ia ib : PaymentChannelInfo) (la lb : OffChainState)
    : Type 0 where
  pub a_knows : Knows a b.algo_account.address ia la
  pub b_knows : Knows b a.algo_account.address ib lb
  pub a_keys : IsKeyPair sdk a.algo_account
  pub b_keys : IsKeyPair sdk b.algo_account
  pub distinct : a.algo_account.address ≢ b.algo_account.address
  pub same_app : ia.app_id ≡ ib.app_id
  pub same_alice : ia.alice_address ≡ ib.alice_address
  pub alice_is :
      (ia.alice_address ≡ a.algo_account.address) ⊎ (ia.alice_address ≡ b.algo_account.address)
  pub same_alice_balance : la.alice_balance ≡ lb.alice_balance
  pub same_bob_balance : la.bob_balance ≡ lb.bob_balance
  pub alice_word : IsWord la.alice_balance
  pub bob_word : IsWord la.bob_balance

-- The balance that the payer keeps.
abbrev pub kept : Bool → ℕ × ℕ → ℕ
kept me_alice (alice, bob) = if me_alice then alice else bob

-- A payment that the receiver accepts: positive as an int64, at a later time, and such that the
-- payer keeps the penalty reserve.
pub record IsPayment (me_alice : Bool) (ib : PaymentChannelInfo) (la lb : OffChainState)
    (amount t : ℕ) : Type 0 where
  pub positive : 0 < amount
  pub small : amount < sign_bit
  pub keeps_reserve : ib.penalty_reserve ≤ kept me_alice (paid_balances me_alice la amount)
  pub later : slt lb.timestamp t ≡ true
  pub time_word : IsWord t

pub paid_balances-IsWord :
    (me_alice : Bool) (la : OffChainState) (amount : ℕ)
    → IsWord (paid_balances me_alice la amount).0 × IsWord (paid_balances me_alice la amount).1
unfolding paid_balances
paid_balances-IsWord true la amount = omega arith
paid_balances-IsWord false la amount = omega arith

pub paid_balances_acceptable :
    (me_alice : Bool) (ib : PaymentChannelInfo) (la lb : OffChainState) (amount t : ℕ)
    → IsWord la.alice_balance
    → IsWord la.bob_balance
    → la.alice_balance ≡ lb.alice_balance
    → la.bob_balance ≡ lb.bob_balance
    → IsPayment me_alice ib la lb amount t
    → is_acceptable
        (not me_alice)
        ib
        lb
        (paid_balances me_alice la amount).0
        (paid_balances me_alice la amount).1
        t
      ≡ true
unfolding is_acceptable is_beneficial paid_balances
paid_balances_acceptable true ib la lb amount t wa wb ea eb p =
    let positive : slt 0 (sub64 lb.alice_balance (sub64 la.alice_balance amount)) ≡ true =
      unfold slt in ground (arith, p.positive, p.small) in
    ground (arith, p.keeps_reserve, p.later, p.positive, p.small)
paid_balances_acceptable false ib la lb amount t wa wb ea eb p =
    let positive : slt 0 (sub64 lb.bob_balance (sub64 la.bob_balance amount)) ≡ true =
      unfold slt in ground (arith, p.positive, p.small) in
    ground (arith, p.keeps_reserve, p.later, p.positive, p.small)
