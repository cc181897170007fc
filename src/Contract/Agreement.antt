-- ===== src/Contract/Agreement.antt =====
-- What a node and the chain agree in, and the states that suit a channel of the contract.
use algorand_state_channels.Base.{
  ℕ, ◌+◌, ◌-◌, ◌≡◌, true, Bytes, codes, bytes_has_eq, nat_has_eq, none, some, List, [], ◌∷◌, arith,
  if◌then◌else◌, ◌==◌,
}
use algorand_state_channels.Base.Word.{IsWord}
use algorand_state_channels.Payment.Sdk.{Sdk, Account, Address}
use algorand_state_channels.Contract.State.{Channel, Chain, Payout}
use algorand_state_channels.Contract.Program.{put_state}
use algorand_state_channels.Contract.Calls.{btoi-uint64_to_bytes, signed_of}

-- The chain's hash and signature check are those of the node's packages: SHA3-256 and ed25519.
pub record SameCrypto (sdk : Sdk) (chain : Chain) : Type 0 where
  pub same_hash : (b : Bytes) → chain.sha3_256 b ≡ sdk.sum256 b
  pub accepts :
      (key m s : Bytes) → sdk.verify key m s ≡ true → chain.ed25519verify_bare m s key ≡ some true
  pub sound :
      (key m s : Bytes) → chain.ed25519verify_bare m s key ≡ some true → sdk.verify key m s ≡ true

-- The channel's parties, by the addresses that the nodes use.
pub record HasParties (sdk : Sdk) (ch : Channel) (alice bob : Address) : Type 0 where
  pub alice_key : ch.alice_address ≡ sdk.decode_address alice
  pub bob_key : ch.bob_address ≡ sdk.decode_address bob

-- Balances and a timestamp that suit the channel's deposit.
pub record Divides (ch : Channel) (alice bob timestamp : ℕ) : Type 0 where
  pub whole : alice + bob ≡ ch.total_deposit
  pub deposit_word : IsWord ch.total_deposit
  pub time_word : IsWord timestamp

-- The channel with the balances and timestamp of a state.
abbrev pub with_state : ℕ → ℕ → ℕ → Channel → Channel
with_state alice bob timestamp ch = record ch {
  latest_timestamp = timestamp;
  latest_alice_balance = alice;
  latest_bob_balance = bob;
}

pub put_state-signed_of :
    (ch : Channel) (port alice bob timestamp : ℕ) (sa sb : Bytes)
    → IsWord alice
    → IsWord bob
    → IsWord timestamp
    → put_state (signed_of port alice bob timestamp sa sb) ch
      ≡ some (with_state alice bob timestamp ch)
unfolding put_state
put_state-signed_of ch port alice bob timestamp sa sb ha hb ht = ground (
  arith,
  btoi-uint64_to_bytes alice ha,
  btoi-uint64_to_bytes bob hb,
  btoi-uint64_to_bytes timestamp ht,
)

-- The channel whose closing an account has started.
abbrev pub closing_by : Sdk → Chain → Account → Channel → Channel
closing_by sdk chain account ch = record ch {
  timeout = chain.round + ch.dispute_window;
  closing_initiator = some (
      if sdk.decode_address account.address == ch.alice_address
      then codes "alice"
      else codes "bob");
}

-- The payments that close a channel with these balances: each side's less a fee, and to Alice what
-- remains.
abbrev pub payouts_of : Chain → ℕ → ℕ → Channel → List Payout
payouts_of chain alice bob ch =
    record {
      receiver = ch.bob_address;
      amount = bob - chain.min_txn_fee;
      close_remainder_to = none;
    }
    ∷ record {
      receiver = ch.alice_address;
      amount = alice - chain.min_txn_fee;
      close_remainder_to = some ch.alice_address;
    }
    ∷ []
