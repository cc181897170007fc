-- ===== src/Tests/Chains.antt =====
-- The contract's channel of two concrete nodes, on a chain whose checks are those of the nodes.
use algorand_state_channels.Base.{
  ℕ, ◌≡◌, refl, sym, ◌∙◌, true, Bytes, bytes_eq_iff, bytes_has_eq, nat_has_eq, none, some, ◌++◌,
  ◌==◌, arith,
}
use algorand_state_channels.Base.Decimal.{format_uint}
use algorand_state_channels.Payment.Message.{state_message}
use algorand_state_channels.Payment.Signing.{verify_state}
use algorand_state_channels.Contract.State.{Channel, Chain}
use algorand_state_channels.Contract.Agreement.{SameCrypto, HasParties, Divides}
use algorand_state_channels.Contract.Disputes.{IsBinding}
use algorand_state_channels.Tests.Nodes.{sample_sdk, alice, bob}
use mathlib.Core.List.{append_cancel_left, append_cancel_right}

abbrev pub chain : Chain
chain = record {
  sha3_256 = λ b. b;
  ed25519verify_bare = λ m s key. some (s == key ++ m);
  min_txn_fee = 1000;
  round = 50;
  application_id = 7;
  application_address = format_uint 7;
}

pub same_crypto : SameCrypto sample_sdk chain
same_crypto = record {
  same_hash = λ b. refl;
  accepts = λ key m s e. ground arith;
  sound = λ key m s e. ground arith;
}

pub binding : IsBinding sample_sdk
binding = record {
  one_message = λ key m m' s e f.
      append_cancel_left key m m'
        (sym ((bytes_eq_iff s (key ++ m)).0 e) ∙ (bytes_eq_iff s (key ++ m')).0 f);
  one_key = λ key key' m s e f.
      append_cancel_right key key' m
        (sym ((bytes_eq_iff s (key ++ m)).0 e) ∙ (bytes_eq_iff s (key' ++ m)).0 f);
  one_text = λ a b e. e;
}

-- A signature of a state by a key.
abbrev pub signature_of : Bytes → ℕ → ℕ → ℕ → Bytes
signature_of key alice_balance bob_balance timestamp =
    key ++ state_message 4161 7 alice_balance bob_balance timestamp

pub signature_of-verifies :
    (key : Bytes) (alice_balance bob_balance timestamp : ℕ)
    → verify_state sample_sdk 7 alice_balance bob_balance 4161
        (signature_of key alice_balance bob_balance timestamp)
        key
        timestamp
      ≡ true
unfolding verify_state
signature_of-verifies key a b t =
    (bytes_eq_iff (signature_of key a b t) (signature_of key a b t)).1 refl

-- The channel as it is created and as Alice funds it.
abbrev pub fresh : Channel
fresh = record {
  alice_address = alice.address;
  bob_address = bob.address;
  penalty_reserve = 100_000;
  dispute_window = 1000;
  timeout = 0;
  closing_initiator = none;
  latest_alice_balance = 0;
  latest_bob_balance = 0;
  latest_timestamp = 0;
  total_deposit = 0;
}

abbrev pub funded : Channel
funded = record fresh { latest_alice_balance = 1_000_000; total_deposit = 1_000_000 }

pub funded_parties : HasParties sample_sdk funded alice.address bob.address
funded_parties = record { alice_key = refl; bob_key = refl }

pub funded-Divides : Divides funded 600_000 400_000 1000
funded-Divides = record { whole = refl; deposit_word = omega arith; time_word = omega arith }
