-- ===== src/Tests/Nodes.antt =====
-- Two nodes with a channel: the accounts, the worlds and the states of the tests.
use algorand_state_channels.Base.{
  ◌≡◌, refl, true, Bytes, codes, bytes_has_eq, bytes_eq_iff, Option, none, some, List, [], ◌∷◌,
  ◌++◌, ◌==◌, arith,
}
use algorand_state_channels.Base.Decimal.{format_uint}
use algorand_state_channels.Payment.Sdk.{Sdk, Account, IsKeyPair}
use algorand_state_channels.Payment.Sandbox.{Kmd, Wallet, Environment}
use algorand_state_channels.Server.State.{
  Server, PaymentChannelInfo, OffChainState, PaymentLog, P2PRequest, Exchange, dial_failed,
  Application, World, confirmed,
}
use algorand_state_channels.Base.{inl, bytes_eq}
use algorand_state_channels.Base.Word.{slt}
use algorand_state_channels.Base.Dict.{lookup}
use algorand_state_channels.Server.Log.{get_latest_off_chain_state}
use algorand_state_channels.Server.Rpc.Agreement.{Knows, Shares}

-- A signature of the tests is the key before the message, which is not hashed.
abbrev pub sample_sdk : Sdk
sample_sdk = record {
  sum256 = λ b. b;
  sign = λ k m. some (k ++ m);
  verify = λ k m s. s == k ++ m;
  decode_address = λ a. a;
  encode_address = λ b. some b;
  application_address = format_uint;
}

abbrev pub alice : Account
alice = record { address = codes "ALICE"; private_key = codes "ALICE" }

abbrev pub bob : Account
bob = record { address = codes "BOB"; private_key = codes "BOB" }

pub alice_keys : IsKeyPair sample_sdk alice
alice_keys = record {
  verifies = λ m s e. ground (arith, bytes_eq_iff s (codes "ALICE" ++ m));
  signs = λ m e. ground arith;
}

pub bob_keys : IsKeyPair sample_sdk bob
bob_keys = record {
  verifies = λ m s e. ground (arith, bytes_eq_iff s (codes "BOB" ++ m));
  signs = λ m e. ground arith;
}

abbrev pub channel_info : Bytes → PaymentChannelInfo
channel_info partner_ip = record {
  app_id = 7;
  partner_ip = partner_ip;
  alice_address = alice.address;
  bob_address = bob.address;
  alice_onchain_balance = 1_000_000;
  bob_onchain_balance = 0;
  total_deposit = 1_000_000;
  penalty_reserve = 100_000;
  dispute_window = 1000;
}

-- A state in which Alice has paid 400000 of the deposit.
abbrev pub paid_once : OffChainState
paid_once = record {
  timestamp = 1000;
  alice_balance = 600_000;
  bob_balance = 400_000;
  alice_signature = codes "a";
  bob_signature = codes "b";
  algorand_port = 4161;
  app_id = 7;
}

abbrev pub paid_log : PaymentLog
paid_log = (1000, paid_once) ∷ []

-- A node that has one channel, with `partner` at `partner_ip`.
abbrev pub node : Account → Account → Bytes → Server
node me partner partner_ip = record {
  algo_account = me;
  onchain_states = (partner.address, channel_info partner_ip) ∷ [];
  offchain_states_log = (partner.address, paid_log) ∷ [];
  submitted = [];
  watchtowers = 1;
}

abbrev pub alice_node : Server
alice_node = node alice bob (codes "10.0.0.2")

abbrev pub bob_node : Server
bob_node = node bob alice (codes "10.0.0.1")

abbrev pub other_wallet : Wallet
other_wallet = record { id = codes "1"; name = codes "other" }

abbrev pub sandbox_wallet : Wallet
sandbox_wallet = record { id = codes "2"; name = codes "unencrypted-default-wallet" }

abbrev pub kmd_wallets : List Wallet
kmd_wallets = other_wallet ∷ sandbox_wallet ∷ []

-- An environment without variables, and a kmd service whose sandbox wallet has Bob's key.
abbrev pub kmd : Kmd
kmd = record {
  list_wallets = some kmd_wallets;
  init_wallet_handle = λ id password. some id;
  list_keys = λ handle. some (bob.address ∷ []);
  export_key = λ handle password address. some address;
}

abbrev pub sandbox : Environment
sandbox = record {
  getenv = λ key. [];
  make_algod_client = λ address token. true;
  make_kmd_client = λ address token. some kmd;
  to_private_key = λ seed_phrase. none;
  account_from_private_key = λ key. some (record { address = key; private_key = key });
  generated_account = alice;
}

-- A world at the time 2000 with the given peers and application.
abbrev pub world : (Bytes → P2PRequest → Exchange) → Option Application → World
world peer app = record {
  sdk = sample_sdk;
  compiler = record { read_file = λ path. none; teal_compile = λ text. none };
  application_by_id = λ app_id. app;
  created_app_id = 7;
  account_amount = λ a. none;
  environment = sandbox;
  funding = confirmed;
  peer = peer;
  now = 2000;
}

abbrev pub alone : World
alone = world (λ ip r. dial_failed) none

pub paid_latest : get_latest_off_chain_state paid_log ≡ some paid_once
unfolding get_latest_off_chain_state slt
paid_latest = refl

pub alice-Knows : Knows alice_node bob.address (channel_info (codes "10.0.0.2")) paid_once
unfolding lookup bytes_eq
alice-Knows = record { log = paid_log; channel = refl; logged = refl; last = paid_latest }

pub bob-Knows : Knows bob_node alice.address (channel_info (codes "10.0.0.1")) paid_once
unfolding lookup bytes_eq
bob-Knows = record { log = paid_log; channel = refl; logged = refl; last = paid_latest }

pub shared :
    Shares sample_sdk alice_node bob_node
      (channel_info (codes "10.0.0.2"))
      (channel_info (codes "10.0.0.1"))
      paid_once
      paid_once
shared = record {
  a_knows = alice-Knows;
  b_knows = bob-Knows;
  a_keys = alice_keys;
  b_keys = bob_keys;
  distinct = λ e. ground arith;
  same_app = refl;
  same_alice = refl;
  alice_is = inl refl;
  same_alice_balance = refl;
  same_bob_balance = refl;
  alice_word = omega arith;
  bob_word = omega arith;
}
