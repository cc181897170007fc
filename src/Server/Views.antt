-- ===== src/Server/Views.antt =====
-- What a node promises of a channel, without its logs and signatures: two balances and a time, and
-- amounts that move between them. The node's payments refine it.
pub mod Payments
pub mod Sending
use algorand_state_channels.Base.{
  ℕ, ◌<◌, ◌≡◌, Bool, true, false, not, Bytes, bytes_has_eq, Option, none, some, if◌then◌else◌,
  nat_has_eq,
}
use algorand_state_channels.Base.Word.{slt, IsWord, add64, sub64, sign_bit}
use algorand_state_channels.Base.Dict.{lookup}
use algorand_state_channels.Payment.Sdk.{Address}
use algorand_state_channels.Server.State.{Server, PaymentChannelInfo, OffChainState, PaymentLog}
use algorand_state_channels.Server.Log.{get_latest_off_chain_state}
use algorand_state_channels.Server.Peer.{is_alice}

pub record View : Type 0 where
  pub me_alice : Bool
  pub alice : ℕ
  pub bob : ℕ
  pub time : ℕ

abbrev pub view_of : Bool → Option OffChainState → Option View
view_of me_alice none = none
view_of me_alice (some st) = some (record {
  me_alice = me_alice;
  alice = st.alice_balance;
  bob = st.bob_balance;
  time = st.timestamp;
})

abbrev pub view_of_log : Bool → Option PaymentLog → Option View
view_of_log me_alice none = none
view_of_log me_alice (some log) = view_of me_alice (get_latest_off_chain_state log)

abbrev pub view_of_channel : Server → Option PaymentChannelInfo → Option PaymentLog → Option View
view_of_channel s none log = none
view_of_channel s (some info) log = view_of_log (is_alice info s.algo_account.address) log

-- A node's view of its channel with `c`.
unfoldable pub view : Address → Server → Option View
view c s = view_of_channel s (lookup c s.onchain_states) (lookup c s.offchain_states_log)

-- An amount moves, in uint64 arithmetic.
abbrev pub transfer : Bool → ℕ → ℕ → View → View
transfer to_alice amount t v = record v {
  alice = if to_alice then add64 v.alice amount else sub64 v.alice amount;
  bob = if to_alice then sub64 v.bob amount else add64 v.bob amount;
  time = t;
}

-- A payment: one that comes in at a time, and one of an amount that goes out.
pub data Move : Type 0 where
  incoming : (t : ℕ) → Move
  outgoing : (amount t : ℕ) → Move

-- What a payment may do to a view: nothing, or, at a later time than the view's, add an amount to
-- the node's balance that is positive as an int64, or take the given one from it; the other balance
-- takes the difference.
pub data Evolves : Move → Option View → Option View → Type 0 where
  stays : (p : Move) (o : Option View) → Evolves p o o
  receives :
      (v : View) (amount t : ℕ)
      → 0 < amount
      → amount < sign_bit
      → slt v.time t ≡ true
      → Evolves (incoming t) (some v) (some (transfer v.me_alice amount t v))
  sends :
      (v : View) (amount t : ℕ)
      → slt v.time t ≡ true
      → Evolves (outgoing amount t) (some v) (some (transfer (not v.me_alice) amount t v))
