-- ===== src/Payment/Sandbox.antt =====
-- The accounts that a node starts with: its own, and those of the sandbox's wallet that fund it, by
-- payment/testing/setup.go. The environment and the kmd service, with its client, are parameters.
pub mod Wallets
use algorand_state_channels.Base.{
  Bool, Bytes, bytes_has_eq, codes, Option, none, some, List, [], ◌∷◌, ◌==◌, if◌then◌else◌,
}
use algorand_state_channels.Payment.Sdk.{Account, Address}

pub record Wallet : Type 0 where
  pub id : Bytes
  pub name : Bytes

-- kmd.Client; `none` is an error
pub record Kmd : Type 0 where
  pub list_wallets : Option (List Wallet)
  pub init_wallet_handle : (id password : Bytes) → Option Bytes
  pub list_keys : (handle : Bytes) → Option (List Address)
  pub export_key : (handle password : Bytes) → Address → Option Bytes

pub record Environment : Type 0 where
  pub getenv : Bytes → Bytes
  pub make_algod_client : (address token : Bytes) → Bool  -- whether algod.MakeClient succeeds
  pub make_kmd_client : (address token : Bytes) → Option Kmd
  pub to_private_key : (seed_phrase : Bytes) → Option Bytes  -- mnemonic.ToPrivateKey
  pub account_from_private_key : Bytes → Option Account
  pub generated_account : Account  -- crypto.GenerateAccount

-- Each of these operations ends with a value or with a log.Fatalf, which is `none`.
infixl 5 ◌>>=◌
abbrev pub ◌>>=◌ : {A B : Type 0} (m : Option A) (k : A → Option B) → Option B
none >>= k = none
some a >>= k = k a

-- getEnvOrDefault
unfoldable pub get_env_or_default : Environment → Bytes → Bytes → Bytes
get_env_or_default env key default_value =
    let value = env.getenv key in if value == [] then default_value else value

-- GetAlgodClient, which ends the process if no client can be made
unfoldable pub get_algod_client : Environment → Bool
unfolding get_env_or_default
get_algod_client env =
    env.make_algod_client
      (get_env_or_default env (codes "ALGOD_ADDRESS") (codes "http://algorand-algod:4001"))
      (codes "aaaaaaaaaaaaaaaaaaaaaaaaaaaaaaaaaaaaaaaaaaaaaaaaaaaaaaaaaaaaaaaa")

-- GetKmdClient
unfoldable pub get_kmd_client : Environment → Option Kmd
unfolding get_env_or_default
get_kmd_client env =
    env.make_kmd_client
      (get_env_or_default env (codes "KMD_ADDRESS") (codes "http://algorand-algod:4002"))
      (codes "aaaaaaaaaaaaaaaaaaaaaaaaaaaaaaaaaaaaaaaaaaaaaaaaaaaaaaaaaaaaaaaa")

-- The loop over the wallets, which ends at the first with the name; [] if there is none.
unfoldable pub find_wallet : List Wallet → Bytes
find_wallet [] = []
find_wallet (wallet ∷ rest) =
    let later = find_wallet rest in
    if wallet.name == codes "unencrypted-default-wallet" then wallet.id else later

-- The loop over the addresses.
unfoldable pub export_accounts : Environment → Kmd → Bytes → List Address → Option (List Account)
export_accounts env client handle [] = some []
export_accounts env client handle (address ∷ rest) = do
  private_key ← client.export_key handle [] address
  account ← env.account_from_private_key private_key
  accounts ← export_accounts env client handle rest
  some (account ∷ accounts)

abbrev pub found : Bytes → Option Bytes
found wallet_id = if wallet_id == [] then none else some wallet_id

-- GetSandboxAccounts
unfoldable pub get_sandbox_accounts : Environment → Option (List Account)
get_sandbox_accounts env = do
  client ← get_kmd_client env
  wallets ← client.list_wallets
  wallet_id ← found (find_wallet wallets)
  handle ← client.init_wallet_handle wallet_id []
  addresses ← client.list_keys handle
  export_accounts env client handle addresses

-- The account of initializeServer and Reset: a new one, or that of the seed phrase.
unfoldable pub node_account : Environment → Option Account
node_account env =
    let seed_phrase = env.getenv (codes "SEED_PHRASE") in
    if seed_phrase == []
    then some env.generated_account
    else env.to_private_key seed_phrase >>= λ private_key. env.account_from_private_key private_key
